-- ===== src/Irc/Message/TagText.antt =====
-- The tags of a line.
use go_protocols.Common.{
  ℕ, ◌≡◌, ◌≢◌, ◌∙◌, refl, ap, sym, [], ◌∷◌, ◌++◌, none, Bytes, arith, append_assoc, append-nil, All,
  All-append, map, equal_iff, if_cases,
}
use go_protocols.Common.Text.{Free, cut-append, cut-Free, split}
use go_protocols.Common.Maps.{
  lookup, insert, bytes_key, lookup-insert, insert-new, lookup-cons_none,
}
use go_protocols.Irc.Message.{
  Tags, is_empty, tag_entry, add_tag, add_tags, parse_tags, tag_text, tags_text, escape_tag_value,
}
use go_protocols.Irc.Message.Escape.{unescape-escape_tag_value, escape_tag_value-Free}

-- A tag whose key can be written; the value may be any text.
pub record IsTag (t : Bytes × Bytes) : Type 0 where
  pub key_ne_nil : t.0 ≢ []
  pub key_semicolon : Free b';' t.0
  pub key_space : Free b' ' t.0
  pub key_equals : Free b'=' t.0

-- No key occurs twice, as in a map.
abbrev pub Distinct : Tags → Type 0
Distinct [] = Unit
Distinct (t ∷ ts) = (lookup t.0 ts ≡ none) × Distinct ts

tag_text-Free : (t : Bytes × Bytes) → IsTag t → Free b';' (tag_text t) × Free b' ' (tag_text t)
unfolding tag_text
tag_text-Free (k, v) h =
    let (semi, space) = escape_tag_value-Free v in
    if_cases (λ s. Free b';' s × Free b' ' s) (is_empty v) _ _ (λ e. (h.key_semicolon, h.key_space))
      (λ e. (
        All-append (λ x. x ≢ b';') k (b'=' ∷ escape_tag_value v) h.key_semicolon
            (omega arith, semi),
        All-append (λ x. x ≢ b' ') k (b'=' ∷ escape_tag_value v) h.key_space (omega arith, space),
      ))

-- parseTags on the text of one tag.
add_tag-tag_text :
    (t : Bytes × Bytes) (m : Tags) → IsTag t → add_tag (tag_text t) m ≡ insert t.0 t.1 m
unfolding add_tag tag_text tag_entry
add_tag-tag_text ([], v) m h = absurd (h.key_ne_nil refl)
add_tag-tag_text (c ∷ k, []) m h = rw (cut-Free b'=' (c ∷ k) h.key_equals)
add_tag-tag_text (c ∷ k, d ∷ v) m h = rw (
  cut-append b'=' (c ∷ k) (escape_tag_value (d ∷ v)) h.key_equals,
  unescape-escape_tag_value (d ∷ v),
)

split-Free : (c : ℕ) (s : Bytes) → Free c s → split c s ≡ s ∷ []
unfolding split
split-Free c [] h = refl
split-Free c (x ∷ s) h = ground (arith, split-Free c s h.1)

split-append : (c : ℕ) (s t : Bytes) → Free c s → split c (s ++ c ∷ t) ≡ s ∷ split c t
unfolding split
split-append c [] t h = ground arith
split-append c (x ∷ s) t h = ground (arith, split-append c s t h.1)

split-tags_text :
    (t : Bytes × Bytes) (ts : Tags)
    → All IsTag (t ∷ ts)
    → split b';' (tags_text (t ∷ ts)) ≡ map tag_text (t ∷ ts)
unfolding tags_text
split-tags_text t [] h = split-Free b';' (tag_text t) (tag_text-Free t h.0).0
split-tags_text t (u ∷ ts) h =
    split-append b';' (tag_text t) (tags_text (u ∷ ts)) (tag_text-Free t h.0).0
    ∙ ap (◌∷◌ (tag_text t)) (split-tags_text u ts h.1)

pub tags_text-Free : (ts : Tags) → All IsTag ts → Free b' ' (tags_text ts)
unfolding tags_text
tags_text-Free [] h = tt
tags_text-Free (t ∷ []) h = (tag_text-Free t h.0).1
tags_text-Free (t ∷ u ∷ ts) h =
    All-append (λ x. x ≢ b' ') (tag_text t) (b';' ∷ tags_text (u ∷ ts)) (tag_text-Free t h.0).1
      (omega arith, tags_text-Free (u ∷ ts) h.1)

-- None of the keys is in the map.
abbrev pub AreNew : Tags → Tags → Type 0
AreNew m ts = All (λ t. lookup t.0 m ≡ none) ts

AreNew-insert :
    (t : Bytes × Bytes) (m ts : Tags)
    → lookup t.0 ts ≡ none
    → AreNew m ts
    → AreNew (insert t.0 t.1 m) ts
AreNew-insert t m [] h n = tt
AreNew-insert t m (u ∷ ts) h n =
    let (other, rest) = lookup-cons_none t.0 u.0 u.1 ts h in
    (
      lookup-insert t.0 u.0 t.1 m ∙ ground (arith, equal_iff t.0 u.0, equal_iff u.0 t.0, n.0),
      AreNew-insert t m ts rest n.1,
    )

add_tags-new :
    (ts m : Tags)
    → All IsTag ts
    → Distinct ts
    → AreNew m ts
    → add_tags (map tag_text ts) m ≡ m ++ ts
unfolding add_tags
add_tags-new [] m h d n = sym (append-nil m)
add_tags-new (t ∷ ts) m h d n =
    ap (add_tags (map tag_text ts)) (add_tag-tag_text t m h.0)
    ∙ add_tags-new ts (insert t.0 t.1 m) h.1 d.1 (AreNew-insert t m ts d.0 n.1)
    ∙ rw (insert-new t.0 t.1 m n.0, append_assoc)

AreNew-nil : (ts : Tags) → AreNew [] ts
unfolding lookup
AreNew-nil [] = tt
AreNew-nil (t ∷ ts) = (refl, AreNew-nil ts)

-- parseTags reads back the written form of one or more tags with different keys that can be
-- written, whatever the values.
pub parse_tags-tags_text :
    (t : Bytes × Bytes) (ts : Tags)
    → All IsTag (t ∷ ts)
    → Distinct (t ∷ ts)
    → parse_tags (tags_text (t ∷ ts)) ≡ t ∷ ts
unfolding parse_tags
parse_tags-tags_text t ts h d =
    ap (λ ps. add_tags ps []) (split-tags_text t ts h)
    ∙ add_tags-new (t ∷ ts) [] h d (AreNew-nil (t ∷ ts))
