-- ===== src/Irc/Message/TagOrder.antt =====
-- The order in which Format writes the tags: server tags before client-only ones.
use go_protocols.Common.{
  Bool, true, false, not, ◌≡◌, [], ◌∷◌, ◌++◌, none, if◌then◌else◌, Bytes, arith, All, All-append,
  equal_iff, Bool-cases, inl, inr, if_cases,
}
use go_protocols.Common.Maps.{lookup, bytes_key, lookup-append}
use go_protocols.Irc.Message.{Tags, client_only, pass}
use go_protocols.Irc.Message.TagText.{IsTag, Distinct}

-- Both passes, in order.
abbrev pub server_first : Tags → Tags
server_first tags = pass false tags ++ pass true tags

same : Bool → Bool → Bool
same true b = b
same false b = not b

lookup-pass :
    (client : Bool) (k : Bytes) (tags : Tags)
    → lookup k (pass client tags) ≡ (if same client (client_only k) then lookup k tags else none)
unfolding pass lookup same
lookup-pass client k [] = ground arith
lookup-pass true k ((j, v) ∷ tags) = ground (arith, lookup-pass true k tags, equal_iff j k)
lookup-pass false k ((j, v) ∷ tags) = ground (arith, lookup-pass false k tags, equal_iff j k)

-- As a map, the tags are the same.
pub lookup-server_first : (k : Bytes) (tags : Tags) → lookup k (server_first tags) ≡ lookup k tags
unfolding same
lookup-server_first k tags = ground (
  arith,
  lookup-append k (pass false tags) (pass true tags),
  lookup-pass false k tags,
  lookup-pass true k tags,
)

All-pass :
    (P : Bytes × Bytes → Type 0) (client : Bool) (tags : Tags)
    → All P tags
    → All P (pass client tags)
unfolding pass
All-pass P client [] h = tt
All-pass P true ((k, v) ∷ tags) h =
    if_cases (All P) (client_only k) _ _ (λ e. (h.0, All-pass P true tags h.1))
      (λ e. All-pass P true tags h.1)
All-pass P false ((k, v) ∷ tags) h =
    if_cases (All P) (client_only k) _ _ (λ e. All-pass P false tags h.1)
      (λ e. (h.0, All-pass P false tags h.1))

lookup-pass-none :
    (client : Bool) (k : Bytes) (tags : Tags)
    → lookup k tags ≡ none
    → lookup k (pass client tags) ≡ none
lookup-pass-none client k tags h = ground (arith, lookup-pass client k tags)

Distinct-pass : (client : Bool) (tags : Tags) → Distinct tags → Distinct (pass client tags)
unfolding pass
Distinct-pass client [] h = tt
Distinct-pass true ((k, v) ∷ tags) h =
    if_cases Distinct (client_only k) _ _
      (λ e. (lookup-pass-none true k tags h.0, Distinct-pass true tags h.1))
      (λ e. Distinct-pass true tags h.1)
Distinct-pass false ((k, v) ∷ tags) h =
    if_cases Distinct (client_only k) _ _ (λ e. Distinct-pass false tags h.1)
      (λ e. (lookup-pass-none false k tags h.0, Distinct-pass false tags h.1))

-- The keys of a pass are of its kind.
abbrev OfKind : Bool → Tags → Type 0
OfKind client = All (λ t. client_only t.0 ≡ client)

OfKind-pass : (client : Bool) (tags : Tags) → OfKind client (pass client tags)
unfolding pass
OfKind-pass client [] = tt
OfKind-pass true ((k, v) ∷ tags) =
    if_cases (OfKind true) (client_only k) _ _ (λ e. (e, OfKind-pass true tags))
      (λ e. OfKind-pass true tags)
OfKind-pass false ((k, v) ∷ tags) =
    if_cases (OfKind false) (client_only k) _ _ (λ e. OfKind-pass false tags)
      (λ e. (e, OfKind-pass false tags))

Distinct-append_pass :
    (front tags : Tags)
    → Distinct front
    → OfKind false front
    → Distinct (pass true tags)
    → Distinct (front ++ pass true tags)
unfolding same
Distinct-append_pass [] tags d o h = h
Distinct-append_pass (t ∷ front) tags d o h = (
  ground (arith, d.0, o.0, lookup-append t.0 front (pass true tags), lookup-pass true t.0 tags),
  Distinct-append_pass front tags d.1 o.1 h,
)

pub server_first-Distinct : (tags : Tags) → Distinct tags → Distinct (server_first tags)
server_first-Distinct tags d =
    Distinct-append_pass (pass false tags) tags (Distinct-pass false tags d)
      (OfKind-pass false tags) (Distinct-pass true tags d)

pub server_first-IsTag : (tags : Tags) → All IsTag tags → All IsTag (server_first tags)
server_first-IsTag tags h =
    All-append IsTag (pass false tags) (pass true tags) (All-pass IsTag false tags h)
      (All-pass IsTag true tags h)

-- Nothing is left out.
pub server_first-cons :
    (t : Bytes × Bytes) (ts : Tags)
    → (u : Bytes × Bytes) × (us : Tags) × (server_first (t ∷ ts) ≡ u ∷ us)
unfolding pass
server_first-cons (k, v) ts = elim (Bool-cases (client_only k)) [
  | inl e ↦ client_head (pass false ts) (k, v) (pass true ts) (rw e)
  | inr e ↦ ((k, v), pass false ts ++ pass true ts, rw e)
]
  where
    client_head :
        (front : Tags) (t : Bytes × Bytes) (back : Tags) {all : Tags}
        → all ≡ front ++ t ∷ back
        → (u : Bytes × Bytes) × (us : Tags) × (all ≡ u ∷ us)
    client_head [] t back e = (t, back, e)
    client_head (f ∷ front) t back e = (f, front ++ t ∷ back, e)
