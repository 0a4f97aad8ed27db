-- ===== src/Irc/Server/Monitor/Limit.antt =====
-- How long the list of a session's monitor gets.
use go_protocols.Common.{
  ℕ, ◌+◌, ◌≤◌, ◌≡◌, refl, ◌∙◌, inl, inr, List, [], ◌∷◌, Option, none, some, leb, Bool-cases, Bytes,
  length, equal, arith, ◌==◌,
}
use go_protocols.Common.Text.{codes, split, to_lower, to_upper}
use go_protocols.Common.Maps.{bytes_key, lookup, insert, delete, is_none}
use go_protocols.Irc.Server.Names.{is_valid_nick}
use go_protocols.Irc.Server.State.{Server, Config, at, send_numeric, find}
use go_protocols.Irc.Server.Tables.{tables, tables-send_numeric, tables-send_monitor_list}
use go_protocols.Irc.Server.Register.Registry.{at-tables, at-store_same, at-store_other}
use go_protocols.Irc.Server.Monitor.{
  monitor_limit, Added, place, add_nick, add_nicks, delete_nicks, begin, place_all,
  monitor_snapshot, set_monitor, tell_places, tell_rejected, too_few, monitor_add, monitor_delete,
  monitor_list, monitor_status, handle_monitor,
}

-- No session watches more nicks than the limit.
abbrev pub IsBounded : Server → Type 0
IsBounded srv = (i : ℕ) → length (at i srv).monitor ≤ monitor_limit

length-insert : (k v : Bytes) (m : List (Bytes × Bytes)) → length (insert k v m) ≤ length m + 1
unfolding insert
length-insert k v [] = omega arith
length-insert k v ((j, w) ∷ m) = let ih = length-insert k v m in ground arith

length-delete : (k : Bytes) (m : List (Bytes × Bytes)) → length (delete k m) ≤ length m
unfolding delete
length-delete k [] = omega arith
length-delete k ((j, w) ∷ m) = let ih = length-delete k m in ground arith

place-same :
    (srv : Server) (nick : Bytes) (o : Option ℕ) (a : Added)
    → (place srv nick o a).monitor ≡ a.monitor
unfolding place
place-same srv nick none a = refl
place-same srv nick (some j) a = refl

add_nick-bounded :
    (srv : Server) (nick : Bytes) (a : Added)
    → length a.monitor ≤ monitor_limit
    → length (add_nick srv nick a).monitor ≤ monitor_limit
unfolding add_nick
add_nick-bounded srv nick a h = elim (Bool-cases (is_valid_nick nick)) [
  | inr bad ↦ rw bad h
  | inl good ↦ elim (Bool-cases (is_none (lookup (to_lower nick) a.monitor))) [
    | inr there ↦ rw (good, there, place-same srv nick (find nick srv) a) h
    | inl fresh ↦ elim (Bool-cases (leb monitor_limit (length a.monitor))) [
      | inl full ↦ rw (good, fresh, full) h
      | inr room ↦
          let more = record a { monitor = insert (to_lower nick) nick a.monitor } in
          let grown = length-insert (to_lower nick) nick a.monitor in
          let same = place-same srv nick (find nick srv) more in
          let fits : length (insert (to_lower nick) nick a.monitor) ≤ monitor_limit =
            ground arith in
          rw (good, fresh, room, same) fits
    ]
  ]
]

add_nicks-bounded :
    (srv : Server) (nicks : List Bytes) (a : Added)
    → length a.monitor ≤ monitor_limit
    → length (add_nicks srv nicks a).monitor ≤ monitor_limit
unfolding add_nicks
add_nicks-bounded srv [] a h = h
add_nicks-bounded srv (nick ∷ nicks) a h =
    add_nicks-bounded srv nicks (add_nick srv nick a) (add_nick-bounded srv nick a h)

length-delete_nicks :
    (nicks : List Bytes) (m : List (Bytes × Bytes)) → length (delete_nicks nicks m) ≤ length m
unfolding delete_nicks
length-delete_nicks [] m = omega arith
length-delete_nicks (nick ∷ nicks) m =
    let one = length-delete (to_lower nick) m in
    let rest = length-delete_nicks nicks (delete (to_lower nick) m) in omega arith

set_monitor-IsBounded :
    (i : ℕ) (m : List (Bytes × Bytes)) (srv : Server)
    → length m ≤ monitor_limit
    → IsBounded srv
    → IsBounded (set_monitor i m srv)
unfolding set_monitor
set_monitor-IsBounded i m srv h all j = elim (Bool-cases (i == j)) [
  | inl e ↦ rw (at-store_same i j (record (at i srv) { monitor = m }) srv e) h
  | inr e ↦ rw (at-store_other i j (record (at i srv) { monitor = m }) srv e) (all j)
]

tables-IsBounded : (s t : Server) → tables s ≡ tables t → IsBounded t → IsBounded s
tables-IsBounded s t h all j = rw (at-tables j s t h) (all j)

module _ (cfg : Config) (sort : List Bytes → List Bytes) where
  numeric-IsBounded :
      (i n : ℕ) (ps : List Bytes) (srv : Server)
      → IsBounded srv
      → IsBounded (send_numeric cfg i n ps srv)
  numeric-IsBounded i n ps srv all =
      tables-IsBounded (send_numeric cfg i n ps srv) srv (tables-send_numeric cfg i n ps srv) all

  tell_places-IsBounded :
      (i : ℕ) (a : Added) (srv : Server) → IsBounded srv → IsBounded (tell_places cfg sort i a srv)
  unfolding tell_places
  tell_places-IsBounded i a srv all =
      tables-IsBounded (tell_places cfg sort i a srv) srv
        (tables-send_monitor_list cfg i 731 a.offline _
          ∙ tables-send_monitor_list cfg i 730 a.online srv)
        all

  tell_rejected-IsBounded :
      (i : ℕ) (rs : List Bytes) (srv : Server)
      → IsBounded srv
      → IsBounded (tell_rejected cfg sort i rs srv)
  unfolding tell_rejected
  tell_rejected-IsBounded i [] srv all = all
  tell_rejected-IsBounded i (r ∷ rs) srv all = numeric-IsBounded i 734 _ srv all

  monitor_add-IsBounded :
      (i : ℕ) (ps : List Bytes) (srv : Server)
      → IsBounded srv
      → IsBounded (monitor_add cfg sort i ps srv)
  unfolding monitor_add too_few
  monitor_add-IsBounded i [] srv all = numeric-IsBounded i 461 _ srv all
  monitor_add-IsBounded i (nicks ∷ rest) srv all =
      let a = add_nicks srv (split b',' nicks) (begin (at i srv).monitor) in
      let held =
        set_monitor-IsBounded i a.monitor srv (add_nicks-bounded srv (split b',' nicks) _ (all i))
          all in
      tell_rejected-IsBounded i a.rejected _ (tell_places-IsBounded i a _ held)

  monitor_delete-IsBounded :
      (i : ℕ) (ps : List Bytes) (srv : Server)
      → IsBounded srv
      → IsBounded (monitor_delete cfg sort i ps srv)
  unfolding monitor_delete too_few
  monitor_delete-IsBounded i [] srv all = numeric-IsBounded i 461 _ srv all
  monitor_delete-IsBounded i (nicks ∷ rest) srv all =
      let less = length-delete_nicks (split b',' nicks) (at i srv).monitor in
      let before = all i in set_monitor-IsBounded i _ srv (omega arith) all

  monitor_list-IsBounded :
      (i : ℕ) (srv : Server) → IsBounded srv → IsBounded (monitor_list cfg sort i srv)
  unfolding monitor_list
  monitor_list-IsBounded i srv all =
      tables-IsBounded (monitor_list cfg sort i srv) srv
        (tables-send_numeric cfg i 733 _ _ ∙ tables-send_monitor_list cfg i 732 _ srv) all

  -- MONITOR keeps the list of every session at 100 nicks at most, if it was so before, whatever
  -- its parameters and however the list is sorted.
  pub handle_monitor-IsBounded :
      (i : ℕ) (params : List Bytes) (srv : Server)
      → IsBounded srv
      → IsBounded (handle_monitor cfg sort i params srv)
  unfolding handle_monitor monitor_status too_few
  handle_monitor-IsBounded i [] srv all = numeric-IsBounded i 461 _ srv all
  handle_monitor-IsBounded i (sub ∷ ps) srv all =
      elim (Bool-cases (equal (to_upper sub) (codes "+"))) [
        | inl e ↦ rw e (monitor_add-IsBounded i ps srv all)
        | inr e ↦ elim (Bool-cases (equal (to_upper sub) (codes "-"))) [
          | inl f ↦ rw (e, f) (monitor_delete-IsBounded i ps srv all)
          | inr f ↦ elim (Bool-cases (equal (to_upper sub) (codes "C"))) [
            | inl g ↦ rw (e, f, g) (set_monitor-IsBounded i [] srv (omega arith) all)
            | inr g ↦ elim (Bool-cases (equal (to_upper sub) (codes "L"))) [
              | inl h ↦ rw (e, f, g, h) (monitor_list-IsBounded i srv all)
              | inr h ↦ elim (Bool-cases (equal (to_upper sub) (codes "S"))) [
                | inl k ↦
                    rw (e, f, g, h, k)
                      (tell_places-IsBounded i
                        (place_all srv (monitor_snapshot (at i srv).monitor)
                          (begin (at i srv).monitor))
                        srv all)
                | inr k ↦ rw (e, f, g, h, k) (numeric-IsBounded i 461 _ srv all)
              ]
            ]
          ]
        ]
      ]
