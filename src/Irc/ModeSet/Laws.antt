-- ===== src/Irc/ModeSet/Laws.antt =====
-- What Apply does to the observers of a mode set.
use go_protocols.Common.{
  ℕ, Bool, true, false, ◌&&◌, ◌≡◌, ◌∙◌, refl, ap, List, [], ◌∷◌, Option, none, some, ◌==◌,
  if◌then◌else◌, Bytes, arith, Bool-cases, inl, inr, if_cases,
}
use go_protocols.Common.Maps.{nat_key, lookup-insert, lookup-delete}
use go_protocols.Irc.ModeString.{ModeChange}
use go_protocols.Irc.ModeSet.{
  ModeSet, ModeType, type_flag, type_arg_always, type_arg_set, type_arg_unset, type_list,
  type_unknown, ModeValidator, has, arg_of, list_of, found, apply_flag, set_arg, unset_arg,
  apply_arg, add_entry, apply_list, apply_typed, apply,
}

is_flag : ModeType → Bool
is_flag type_flag = true
is_flag _ = false

-- Every step of Apply, seen through Has: it sets or clears a flag mode and no other.
has-apply_flag :
    (mc : ModeChange) (s : ModeSet) (m : ℕ)
    → has (apply_flag mc s).0 m ≡ (if mc.mode == m then mc.add else has s m)
unfolding apply_flag has
has-apply_flag mc s m =
    ground (arith, lookup-insert mc.mode m true s.flags, lookup-delete mc.mode m s.flags)

has-set_arg :
    (o : Option Bytes) (mc : ModeChange) (s : ModeSet) (m : ℕ)
    → (has (set_arg o mc s).0 m ≡ has s m) × (has (unset_arg o mc s).0 m ≡ has s m)
unfolding set_arg unset_arg has
has-set_arg none mc s m = (refl, refl)
has-set_arg (some c) mc s m = (refl, refl)

has-apply_arg :
    (v : ModeValidator) (mc : ModeChange) (s : ModeSet) (m : ℕ)
    → has (apply_arg v mc s).0 m ≡ has s m
unfolding apply_arg
has-apply_arg v mc s m =
    if_cases {A = ModeSet × List ModeChange} (λ r. has r.0 m ≡ has s m) mc.add _ _
      (λ e. (has-set_arg (v.validate_arg mc.mode true mc.arg) mc s m).0)
      (λ e. (has-set_arg (arg_of s mc.mode) mc s m).1)

has-add_entry :
    (o : Option Bytes) (mc : ModeChange) (s : ModeSet) (m : ℕ)
    → has (add_entry o mc s).0 m ≡ has s m
unfolding add_entry has
has-add_entry none mc s m = refl
has-add_entry (some c) mc s m = elim (Bool-cases (found c (list_of s mc.mode))) [
  | inl e ↦ rw e
  | inr e ↦ rw e
]

has-lists :
    (s : ModeSet) (l : List (ℕ × List Bytes)) (m : ℕ) → has (record s { lists = l }) m ≡ has s m
unfolding has
has-lists s l m = refl

has-apply_list :
    (v : ModeValidator) (mc : ModeChange) (s : ModeSet) (m : ℕ)
    → has (apply_list v mc s).0 m ≡ has s m
unfolding apply_list
has-apply_list v mc s m =
    if_cases {A = ModeSet × List ModeChange} (λ r. has r.0 m ≡ has s m) mc.add _ _
      (λ e. has-add_entry (v.validate_arg mc.mode true mc.arg) mc s m)
      (λ e.
        if_cases {A = ModeSet × List ModeChange} (λ r. has r.0 m ≡ has s m)
          (found mc.arg (list_of s mc.mode)) _ _ (λ f. has-lists s _ m) (λ f. refl))

has-apply_typed :
    (t : ModeType) (v : ModeValidator) (mc : ModeChange) (s : ModeSet) (m : ℕ)
    → has (apply_typed t v mc s).0 m ≡ (if is_flag t && mc.mode == m then mc.add else has s m)
unfolding apply_typed is_flag
has-apply_typed type_flag v mc s m = has-apply_flag mc s m
has-apply_typed type_arg_always v mc s m = has-apply_arg v mc s m
has-apply_typed type_arg_set v mc s m = has-apply_arg v mc s m
has-apply_typed type_arg_unset v mc s m = refl
has-apply_typed type_list v mc s m = has-apply_list v mc s m
has-apply_typed type_unknown v mc s m = refl

-- The flag m after a list of changes: the last change of it decides.
pub flag_after : (ℕ → ModeType) → ℕ → List ModeChange → Bool → Bool
unfolding is_flag
flag_after type m [] b = b
flag_after type m (mc ∷ cs) b =
    flag_after type m cs (if is_flag (type mc.mode) && mc.mode == m then mc.add else b)

-- Has after Apply: of the changes to a mode of type flag the last one decides, and no other
-- change is seen.
pub has-apply :
    (v : ModeValidator) (cs : List ModeChange) (s : ModeSet) (m : ℕ)
    → has (apply v cs s).0 m ≡ flag_after v.type m cs (has s m)
unfolding apply flag_after
has-apply v [] s m = refl
has-apply v (mc ∷ cs) s m =
    has-apply v cs (apply_typed (v.type mc.mode) v mc s).0 m
    ∙ ap (flag_after v.type m cs) (has-apply_typed (v.type mc.mode) v mc s m)
