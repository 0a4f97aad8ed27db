-- ===== src/Irc/ModeSet/Unique.antt =====
-- The list modes under Apply.
use go_protocols.Common.{
  ℕ, true, false, ◌||◌, ◌≡◌, refl, List, [], ◌∷◌, ◌++◌, Option, none, some, ◌==◌, if◌then◌else◌,
  Bytes, equal, equal_iff, arith, Bool-cases, inl, inr, if_cases,
}
use go_protocols.Common.Maps.{insert, nat_key, lookup-insert}
use go_protocols.Irc.ModeString.{ModeChange}
use go_protocols.Irc.ModeSet.{
  ModeSet, ModeType, type_flag, type_arg_always, type_arg_set, type_arg_unset, type_list,
  type_unknown, ModeValidator, list_of, found, remove_first, apply_flag, apply_arg, add_entry,
  apply_list, apply_typed, apply,
}

-- No entry occurs twice.
abbrev pub Unique : List Bytes → Type 0
Unique [] = Unit
Unique (e ∷ es) = (found e es ≡ false) × Unique es

-- Every list mode.
abbrev pub AreUnique : ModeSet → Type 0
AreUnique s = (m : ℕ) → Unique (list_of s m)

found-append : (a b : Bytes) (es : List Bytes) → found a (es ++ b ∷ []) ≡ (found a es || equal b a)
unfolding found
found-append a b [] = ground arith
found-append a b (e ∷ es) = ground (arith, found-append a b es)

equal_sym : (a b : Bytes) → equal a b ≡ equal b a
equal_sym a b = ground (arith, equal_iff a b, equal_iff b a)

Unique-append :
    (a : Bytes) (es : List Bytes) → Unique es → found a es ≡ false → Unique (es ++ a ∷ [])
unfolding found
Unique-append a [] u h = (refl, tt)
Unique-append a (e ∷ es) u h =
    (ground (arith, found-append e a es, equal_sym e a), Unique-append a es u.1 (ground arith))

found-remove_first :
    (a b : Bytes) (es : List Bytes) → found a es ≡ false → found a (remove_first b es) ≡ false
unfolding found remove_first
found-remove_first a b [] h = refl
found-remove_first a b (e ∷ es) h = ground (arith, found-remove_first a b es)

Unique-remove_first : (b : Bytes) (es : List Bytes) → Unique es → Unique (remove_first b es)
unfolding remove_first
Unique-remove_first b [] u = tt
Unique-remove_first b (e ∷ es) u = elim (Bool-cases (equal e b)) [
  | inl h ↦ rw h u.1
  | inr h ↦ rw h (found-remove_first e b es u.0, Unique-remove_first b es u.1)
]

list_of-insert :
    (s : ModeSet) (k m : ℕ) (l : List Bytes)
    → list_of (record s { lists = insert k l s.lists }) m ≡ (if k == m then l else list_of s m)
unfolding list_of
list_of-insert s k m l = ground (arith, lookup-insert k m l s.lists)

AreUnique-insert :
    (s : ModeSet) (k : ℕ) (l : List Bytes)
    → AreUnique s
    → Unique l
    → AreUnique (record s { lists = insert k l s.lists })
AreUnique-insert s k l u h m =
    rw (list_of-insert s k m l) (elim (Bool-cases (k == m)) [ inl e ↦ rw e h | inr e ↦ rw e (u m) ])

add_entry-AreUnique :
    (o : Option Bytes) (mc : ModeChange) (s : ModeSet)
    → AreUnique s
    → AreUnique (add_entry o mc s).0
unfolding add_entry
add_entry-AreUnique none mc s u = u
add_entry-AreUnique (some c) mc s u = elim (Bool-cases (found c (list_of s mc.mode))) [
  | inl e ↦ rw e u
  | inr e ↦
      rw e (AreUnique-insert s mc.mode _ u (Unique-append c (list_of s mc.mode) (u mc.mode) e))
]

apply_list-AreUnique :
    (v : ModeValidator) (mc : ModeChange) (s : ModeSet)
    → AreUnique s
    → AreUnique (apply_list v mc s).0
unfolding apply_list
apply_list-AreUnique v mc s u =
    if_cases {A = ModeSet × List ModeChange} (λ r. AreUnique r.0) mc.add _ _
      (λ e. add_entry-AreUnique (v.validate_arg mc.mode true mc.arg) mc s u)
      (λ e.
        if_cases {A = ModeSet × List ModeChange} (λ r. AreUnique r.0)
          (found mc.arg (list_of s mc.mode)) _ _
          (λ f.
            AreUnique-insert s mc.mode _ u
              (Unique-remove_first mc.arg (list_of s mc.mode) (u mc.mode)))
          (λ f. u))

-- The other cases leave the lists alone.
lists-apply_flag : (mc : ModeChange) (s : ModeSet) → (apply_flag mc s).0.lists ≡ s.lists
unfolding apply_flag
lists-apply_flag mc s = ground arith

lists-apply_arg :
    (v : ModeValidator) (mc : ModeChange) (s : ModeSet) → (apply_arg v mc s).0.lists ≡ s.lists
unfolding apply_arg
lists-apply_arg v mc s = ground arith

AreUnique-lists : (s t : ModeSet) → t.lists ≡ s.lists → AreUnique s → AreUnique t
unfolding list_of
AreUnique-lists s t e u m = rw e (u m)

apply_typed-AreUnique :
    (t : ModeType) (v : ModeValidator) (mc : ModeChange) (s : ModeSet)
    → AreUnique s
    → AreUnique (apply_typed t v mc s).0
unfolding apply_typed
apply_typed-AreUnique type_flag v mc s u = AreUnique-lists s _ (lists-apply_flag mc s) u
apply_typed-AreUnique type_arg_always v mc s u = AreUnique-lists s _ (lists-apply_arg v mc s) u
apply_typed-AreUnique type_arg_set v mc s u = AreUnique-lists s _ (lists-apply_arg v mc s) u
apply_typed-AreUnique type_arg_unset v mc s u = u
apply_typed-AreUnique type_list v mc s u = apply_list-AreUnique v mc s u
apply_typed-AreUnique type_unknown v mc s u = u

-- Apply keeps the entries of every list mode distinct, whatever the validator does.
pub apply-AreUnique :
    (v : ModeValidator) (cs : List ModeChange) (s : ModeSet)
    → AreUnique s
    → AreUnique (apply v cs s).0
unfolding apply
apply-AreUnique v [] s u = u
apply-AreUnique v (mc ∷ cs) s u =
    apply-AreUnique v cs _ (apply_typed-AreUnique (v.type mc.mode) v mc s u)
