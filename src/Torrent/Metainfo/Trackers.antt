-- ===== src/Torrent/Metainfo/Trackers.antt =====
-- The list of trackers, by an independent description.
use go_protocols.Common.{
  ◌≡◌, refl, ap, ◌∙◌, sym, inl, inr, true, ◌||◌, List, [], ◌∷◌, ◌++◌, append_assoc, append-nil,
  if◌then◌else◌, Bool-cases, Bytes, equal, equal_iff, arith,
}
use go_protocols.Common.Text.{trim_space}
use go_protocols.Torrent.Metainfo.{MetaInfo, mem, add_tracker, add_tier, add_tiers, trackers}

unfoldable pub flatten : List (List Bytes) → List Bytes
flatten [] = []
flatten (t ∷ ts) = t ++ flatten ts

-- The texts without the white space round them; what is empty is left out.
unfoldable pub cleaned : List Bytes → List Bytes
cleaned [] = []
cleaned (u ∷ us) =
    let rest = cleaned us in if equal (trim_space u) [] then rest else trim_space u ∷ rest

unfoldable pub without : Bytes → List Bytes → List Bytes
without v [] = []
without v (x ∷ xs) = let rest = without v xs in if equal x v then rest else x ∷ rest

-- The first of equal texts stays.
unfoldable pub firsts : List Bytes → List Bytes
unfolding without
firsts [] = []
firsts (x ∷ xs) = x ∷ without x (firsts xs)

unfoldable minus : List Bytes → List Bytes → List Bytes
minus r [] = []
minus r (x ∷ xs) = let rest = minus r xs in if mem x r then rest else x ∷ rest

minus-without :
    (v : Bytes) (r xs : List Bytes) → mem v r ≡ true → minus r (without v xs) ≡ minus r xs
unfolding minus without
minus-without v r [] h = refl
minus-without v r (x ∷ xs) h = elim (Bool-cases (equal x v)) [
  | inl e ↦
      let same = (equal_iff x v).0 e in
      let inside : mem x r ≡ true = rw same h in rw (e, inside) (minus-without v r xs h)
  | inr e ↦ rw e (rw (minus-without v r xs h))
]

mem-concat : (x v : Bytes) (r : List Bytes) → mem x (r ++ v ∷ []) ≡ (mem x r || equal v x)
unfolding mem
mem-concat x v [] = ground arith
mem-concat x v (y ∷ r) = ground (arith, mem-concat x v r)

minus-concat : (v : Bytes) (r xs : List Bytes) → minus (r ++ v ∷ []) xs ≡ minus r (without v xs)
unfolding minus without
minus-concat v r [] = refl
minus-concat v r (x ∷ xs) =
    ground (arith, minus-concat v r xs, mem-concat x v r, equal_iff x v, equal_iff v x)

minus_nil : (xs : List Bytes) → minus [] xs ≡ xs
unfolding minus mem
minus_nil [] = refl
minus_nil (x ∷ xs) = ap (◌∷◌ x) (minus_nil xs)

add_tier-minus : (r us : List Bytes) → add_tier r us ≡ r ++ minus r (firsts (cleaned us))
unfolding add_tier add_tracker cleaned firsts minus
add_tier-minus r [] = sym (append-nil r)
add_tier-minus r (u ∷ us) = elim (Bool-cases (equal (trim_space u) [])) [
  | inl e ↦ rw e (add_tier-minus r us)
  | inr e ↦ rw e (elim (Bool-cases (mem (trim_space u) r)) [
    | inl old ↦ rw old (
        add_tier-minus r us
        ∙ ap (◌++◌ r) (sym (minus-without (trim_space u) r (firsts (cleaned us)) old)))
    | inr new ↦ rw new (
        let v : Bytes = trim_space u in
        let d : List Bytes = firsts (cleaned us) in
        add_tier-minus (r ++ v ∷ []) us
        ∙ append_assoc r (v ∷ []) (minus (r ++ v ∷ []) d)
        ∙ ap (λ (xs : List Bytes). r ++ v ∷ xs) (minus-concat v r d))
  ])
]

add_tier-append : (r us vs : List Bytes) → add_tier r (us ++ vs) ≡ add_tier (add_tier r us) vs
unfolding add_tier
add_tier-append r [] vs = refl
add_tier-append r (u ∷ us) vs = add_tier-append (add_tracker r u) us vs

add_tiers-flatten :
    (r : List Bytes) (ts : List (List Bytes)) → add_tiers r ts ≡ add_tier r (flatten ts)
unfolding add_tiers flatten add_tier
add_tiers-flatten r [] = refl
add_tiers-flatten r (t ∷ ts) =
    add_tiers-flatten (add_tier r t) ts ∙ sym (add_tier-append r t (flatten ts))

-- Trackers are the announce URL and the URLs of the tiers in their order, without the white space
-- round them and without the empty ones, each at its first place only.
pub trackers-firsts :
    (m : MetaInfo) → trackers m ≡ firsts (cleaned (m.announce ∷ flatten m.announce_list))
unfolding trackers
trackers-firsts m =
    add_tiers-flatten (add_tracker [] m.announce) m.announce_list
    ∙ (unfold add_tier in refl)
    ∙ add_tier-minus [] (m.announce ∷ flatten m.announce_list)
    ∙ minus_nil (firsts (cleaned (m.announce ∷ flatten m.announce_list)))
