-- ===== src/Ftp/Paths.antt =====
-- pathClean and Resolve of ftp/server/fs/fs.go.
pub mod Clean
use go_protocols.Common.{
  ℕ, Bool, true, false, not, ◌||◌, List, [], ◌∷◌, ◌++◌, Option, none, some, ◌==◌, if◌then◌else◌,
  Bytes, equal, Result, ok, err,
}
use go_protocols.Common.Text.{codes, split}

-- s[:i] for i := strings.LastIndex(s, c); none where i < 0.
unfoldable pub before_last : ℕ → Bytes → Option Bytes
before_last c [] = none
before_last c (x ∷ xs) = elim (before_last c xs) [
  | some a ↦ some (x ∷ a)
  | none ↦ if x == c then some [] else none
]

or_same : Option Bytes → Bytes → Bytes
or_same none out = out
or_same (some a) out = a

-- The switch on a segment.
unfoldable pub clean_segment : Bytes → Bytes → Bytes
unfolding before_last or_same
clean_segment seg out =
    if equal seg [] || equal seg (codes ".")
    then out
    else if equal seg (codes "..")
    then or_same (before_last b'/' out) out
    else out ++ b'/' ∷ seg

unfoldable pub clean_loop : List Bytes → Bytes → Bytes
clean_loop [] out = out
clean_loop (seg ∷ segs) out = clean_loop segs (clean_segment seg out)

unfoldable pub or_root : Bytes → Bytes
or_root [] = codes "/"
or_root (c ∷ cs) = c ∷ cs

-- pathClean
unfoldable pub path_clean : Bytes → Bytes
unfolding clean_loop or_root
path_clean p = or_root (clean_loop (split b'/' p) [])

-- strings.HasPrefix(s, "/")
unfoldable pub is_absolute : Bytes → Bool
is_absolute [] = false
is_absolute (c ∷ cs) = c == b'/'

checked : Bytes → Result Bytes Bytes
checked clean = if not (is_absolute clean) then err (codes "bad path") else ok clean

-- OS.Resolve
unfoldable pub resolve : Bytes → Bytes → Result Bytes Bytes
unfolding checked path_clean is_absolute
resolve cwd [] = ok cwd
resolve cwd (c ∷ cs) =
    checked (path_clean (if not (is_absolute (c ∷ cs)) then cwd ++ b'/' ∷ c ∷ cs else c ∷ cs))
