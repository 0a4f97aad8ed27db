-- ===== src/Ftp/Paths/Clean.antt =====
-- A path as a stack of names.
use go_protocols.Common.{
  ℕ, ◌≡◌, ◌≢◌, refl, ap, true, false, not, ◌||◌, List, [], ◌∷◌, ◌++◌, none, some, ◌==◌,
  if◌then◌else◌, if_cases, Bool-cases, inl, inr, Bytes, equal, ok, All, arith,
}
use go_protocols.Common.Text.{codes, split, cons_first, Free}
use go_protocols.Ftp.Paths.{
  before_last, or_same, clean_segment, clean_loop, or_root, path_clean, is_absolute, checked,
  resolve,
}

-- A name of a path: no slash, and none of the three that stand for no name.
pub record IsName (seg : Bytes) : Type 0 where
  pub ne_nil : equal seg [] ≡ false
  pub ne_dot : equal seg (codes ".") ≡ false
  pub ne_dots : equal seg (codes "..") ≡ false
  pub no_slash : Free b'/' seg

-- The path of a stack of names, the innermost first.
pub path_text : List Bytes → Bytes
path_text [] = []
path_text (n ∷ names) = path_text names ++ b'/' ∷ n

cons_first-All :
    (c x : ℕ) (ps : List Bytes) → x ≢ c → All (Free c) ps → All (Free c) (cons_first x ps)
unfolding cons_first
cons_first-All c x [] ne h = ((ne, tt), tt)
cons_first-All c x (p ∷ ps) ne h = ((ne, h.0), h.1)

split-All : (c : ℕ) (s : Bytes) → All (Free c) (split c s)
unfolding split
split-All c [] = (tt, tt)
split-All c (x ∷ s) =
    if_cases (All (Free c)) (x == c) _ _ (λ e. (tt, split-All c s))
      (λ e. cons_first-All c x (split c s) (ground arith) (split-All c s))

before_last-Free : (c : ℕ) (s : Bytes) → Free c s → before_last c s ≡ none
unfolding before_last
before_last-Free c [] h = refl
before_last-Free c (x ∷ s) h =
    let e : (x == c) ≡ false = ground (arith, h.0) in rw (before_last-Free c s h.1, e)

before_last-append : (c : ℕ) (s n : Bytes) → Free c n → before_last c (s ++ c ∷ n) ≡ some s
unfolding before_last
before_last-append c [] n h =
    let e : (c == c) ≡ true = ground arith in rw (before_last-Free c n h, e)
before_last-append c (x ∷ s) n h = rw (before_last-append c s n h)

-- One level up; there is nothing above the root.
pub up : List Bytes → List Bytes
up [] = []
up (n ∷ names) = names

-- A segment moves nowhere, one level up, or one level down.
pub move : Bytes → List Bytes → List Bytes
unfolding up
move seg names =
    if equal seg [] || equal seg (codes ".")
    then names
    else if equal seg (codes "..")
    then up names
    else seg ∷ names

pub walk : List Bytes → List Bytes → List Bytes
unfolding move
walk [] names = names
walk (seg ∷ segs) names = walk segs (move seg names)

up-All : (names : List Bytes) → All IsName names → All IsName (up names)
unfolding up
up-All [] h = tt
up-All (n ∷ names) h = h.1

move-All :
    (seg : Bytes) (names : List Bytes)
    → Free b'/' seg
    → All IsName names
    → All IsName (move seg names)
unfolding move
move-All seg names free h =
    if_cases (All IsName) (equal seg [] || equal seg (codes ".")) _ _ (λ e. h)
      λ e.
        if_cases (All IsName) (equal seg (codes "..")) _ _ (λ d. up-All names h)
          λ d. (
            record {
              ne_nil = ground (arith, e);
              ne_dot = ground (arith, e);
              ne_dots = d;
              no_slash = free;
            },
            h,
          )

walk-All :
    (segs names : List Bytes)
    → All (Free b'/') segs
    → All IsName names
    → All IsName (walk segs names)
unfolding walk
walk-All [] names free h = h
walk-All (seg ∷ segs) names free h =
    walk-All segs (move seg names) free.1 (move-All seg names free.0 h)

up-path_text :
    (names : List Bytes)
    → All IsName names
    → or_same (before_last b'/' (path_text names)) (path_text names) ≡ path_text (up names)
unfolding or_same up path_text before_last
up-path_text [] h = refl
up-path_text (n ∷ names) h = rw (before_last-append b'/' (path_text names) n (h.0.no_slash))

clean_segment-path_text :
    (seg : Bytes) (names : List Bytes)
    → All IsName names
    → clean_segment seg (path_text names) ≡ path_text (move seg names)
unfolding clean_segment move path_text
clean_segment-path_text seg names h = elim (Bool-cases (equal seg [] || equal seg (codes "."))) [
  | inl skip ↦ rw skip
  | inr go ↦ elim (Bool-cases (equal seg (codes ".."))) [
    | inl back ↦ rw (go, back) (up-path_text names h)
    | inr on ↦ rw (go, on)
  ]
]

clean_loop-path_text :
    (segs names : List Bytes)
    → All (Free b'/') segs
    → All IsName names
    → clean_loop segs (path_text names) ≡ path_text (walk segs names)
unfolding clean_loop walk
clean_loop-path_text [] names free h = refl
clean_loop-path_text (seg ∷ segs) names free h =
    rw (clean_segment-path_text seg names h)
      (clean_loop-path_text segs (move seg names) free.1 (move-All seg names free.0 h))

-- pathClean is the path of the names that are left when one walks down from the root along the
-- segments, where `..` at the root stays at the root.
pub path_clean-walk : (p : Bytes) → path_clean p ≡ or_root (path_text (walk (split b'/' p) []))
unfolding path_clean
path_clean-walk p =
    ap or_root (unfold path_text in (clean_loop-path_text (split b'/' p) [] (split-All b'/' p) tt))

absolute-append :
    (s n : Bytes) → is_absolute (or_root s) ≡ true → is_absolute (or_root (s ++ b'/' ∷ n)) ≡ true
unfolding is_absolute or_root
absolute-append [] n h = refl
absolute-append (c ∷ s) n h = h

absolute-path_text : (names : List Bytes) → is_absolute (or_root (path_text names)) ≡ true
unfolding path_text
absolute-path_text [] = unfold is_absolute or_root in refl
absolute-path_text (n ∷ names) = absolute-append (path_text names) n (absolute-path_text names)

checked-path_clean :
    (p : Bytes)
    → (names : List Bytes) × (checked (path_clean p) ≡ ok (or_root (path_text names)))
      × All IsName names
unfolding checked
checked-path_clean p =
    let names : List Bytes = walk (split b'/' p) [] in
    (
      names,
      rw (path_clean-walk p, absolute-path_text names),
      walk-All (split b'/' p) [] (split-All b'/' p) tt,
    )

-- Resolve of an argument that is not empty never fails, and gives an absolute path of names only:
-- no segment is empty, `.` or `..`, so it never leaves the root.
pub resolve-IsName :
    (cwd arg : Bytes)
    → arg ≢ []
    → (names : List Bytes) × (resolve cwd arg ≡ ok (or_root (path_text names))) × All IsName names
unfolding resolve
resolve-IsName cwd [] h = absurd (h refl)
resolve-IsName cwd (c ∷ cs) h =
    checked-path_clean (if not (is_absolute (c ∷ cs)) then cwd ++ b'/' ∷ c ∷ cs else c ∷ cs)
