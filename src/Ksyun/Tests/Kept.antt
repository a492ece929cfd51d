-- ===== src/Ksyun/Tests/Kept.antt =====
-- The service of the tests behaves as package ksyun relies on.
use text.Mathlib.TextLemmas.{append-nil}
use mathlib.Core.List.{map-append}
use mathlib.Core.Option.{none-ne-some}
use vpc_route_controller.Common.{
  String, Bool, true, false, none, some, List, [], ◌∷◌, ◌++◌, ◌≡◌, refl, sym, ap, ◌∙◌, ◌==◌,
  decimal, Dict, ok, contains, message, kop, Bool-cases, inl, inr, arith, eq_iff,
}
use vpc_route_controller.Http.Kop.{get, post, delete, HttpResponse}
use vpc_route_controller.Route.Calls.{same_route}
use vpc_route_controller.Ksyun.Call.{token_expired}
use vpc_route_controller.Ksyun.Types.{RouteSetType}
use vpc_route_controller.Ksyun.Vpc.{
  find_entry, entries_of, without_entry, Identified, url_of, Responds, CanSend, KeepsEntries,
  vpc_query, alarm_query, hosts_query, network_filter, route_query, create_query, delete_query,
}
use vpc_route_controller.Ksyun.Tests.Texts.{
  before, read, read-write_all, texts_of, encode, after, after-append,
}
use vpc_route_controller.Ksyun.Tests.Service.{
  entry, entries, read_entries-texts_of, of_network, with_id, without_id, answer, create, serve,
  endpoint, query_texts, service, conf,
}

query_texts-url_of :
    (query : Dict String) → query_texts (url_of service conf query) ≡ texts_of query
query_texts-url_of query =
    ap read
      (ap (after "?") (after-append endpoint _) ∙ (after-append "?" _ ∙ append-nil (encode query)))
    ∙ read-write_all (texts_of query)

pub can_send : CanSend service conf entries
can_send = record {
  keys = λ w. (_, w, refl, refl);
  letters = λ w. (_, w, refl, refl);
  makes = λ method url. refl;
  signs = λ keys service region request w. (request, w, refl, refl, refl, refl);
  ends = record { success = λ b p m w v bytes e. e; refusal = λ b p m w v x e no. e };
}

serves :
    (method : String) (query : Dict String) (w : Dict String)
    (P : HttpResponse → Dict String → Type 0)
    → P (serve (texts_of query) w).0 (serve (texts_of query) w).1
    → Responds service conf method query w P
serves method query w P p insecure request m u =
    let same : query_texts request.url ≡ texts_of query =
      ap query_texts u ∙ query_texts-url_of query in
    (_, _, rw same refl, p)

of_network-entries :
    (cidr : String) (w : Dict String) → entries (of_network cidr w) ≡ entries_of cidr (entries w)
unfolding of_network entries_of
of_network-entries cidr [] = refl
of_network-entries cidr ((own, gateway) ∷ w) = elim (Bool-cases (own == cidr)) [
  | inl hit ↦ rw hit (ap (λ es. entry (own, gateway) ∷ es) (of_network-entries cidr w))
  | inr miss ↦ rw miss (of_network-entries cidr w)
]

with_id-entries :
    (id : String) (w : Dict String) (e : RouteSetType)
    → find_entry id (entries w) ≡ some e
    → entries (with_id id w) ≡ e ∷ []
unfolding with_id find_entry
with_id-entries id [] e found = absurd (none-ne-some e found)
with_id-entries id ((own, gateway) ∷ w) e found = elim (Bool-cases (before "r" own == id)) [
  | inl hit ↦
      let same : entry (own, gateway) ≡ e = grind (arith, rw hit at found) in
      rw hit (ap (λ x. x ∷ []) same)
  | inr miss ↦ rw miss (with_id-entries id w e (rw miss at found))
]

without_id-entries :
    (id : String) (w : Dict String) → entries (without_id id w) ≡ without_entry id (entries w)
unfolding without_id without_entry
without_id-entries id [] = refl
without_id-entries id ((own, gateway) ∷ w) = elim (Bool-cases (before "r" own == id)) [
  | inl hit ↦ rw hit refl
  | inr miss ↦ rw miss (ap (λ es. entry (own, gateway) ∷ es) (without_id-entries id w))
]

-- The id tells the network.
id_network : (own cidr : String) → before "r" own == before "r" cidr ≡ true → own ≡ cidr
unfolding after
id_network own cidr same = ap (after "r") ((eq_iff (before "r" own) (before "r" cidr)).0 same)

entry_network :
    (cidr : String) (w : Dict String) (e : RouteSetType)
    → find_entry (before "r" cidr) (entries w) ≡ some e
    → e.destination_cidr ≡ cidr
unfolding find_entry
entry_network cidr [] e found = absurd (none-ne-some e found)
entry_network cidr ((own, gateway) ∷ w) e found =
    elim (Bool-cases (before "r" own == before "r" cidr)) [
      | inl hit ↦
          let same : entry (own, gateway) ≡ e = grind (arith, rw hit at found) in
          ap (λ (x : RouteSetType). x.destination_cidr) (sym same) ∙ id_network own cidr hit
      | inr miss ↦ entry_network cidr w e (rw miss at found)
    ]

entries-Identified : (w : Dict String) → Identified (entries w)
unfolding Identified
entries-Identified [] = tt
entries-Identified ((own, gateway) ∷ w) =
    ((λ e found. entry_network own w e found), entries-Identified w)

id_free :
    (cidr : String) (w : Dict String)
    → of_network cidr w ≡ []
    → find_entry (before "r" cidr) (entries w) ≡ none
unfolding of_network find_entry
id_free cidr [] free = refl
id_free cidr ((own, gateway) ∷ w) free = elim (Bool-cases (own == cidr)) [
  | inl hit ↦ absurd (ground (arith, rw hit at free))
  | inr miss ↦ elim (Bool-cases (before "r" own == before "r" cidr)) [
    | inl same ↦ absurd (ground (arith, miss, eq_iff own cidr, id_network own cidr same))
    | inr other ↦ rw other (id_free cidr w (rw miss at free))
  ]
]

is_empty : String → Bool
is_empty String.[] = true
is_empty (String.◌∷◌ c s) = false

named : (cidr : String) → before "r" cidr == "" ≡ false
unfolding is_empty
named cidr = elim (Bool-cases (before "r" cidr == "")) [
  | inl y ↦ absurd (ground (arith, ap is_empty ((eq_iff (before "r" cidr) "").0 y)))
  | inr n ↦ n
]

create_free :
    (id cidr : String) (found w : Dict String)
    → entries found ≡ []
    → (create id cidr found w ≡ answer (before "r" cidr) (w ++ (cidr, id) ∷ [])) × (found ≡ [])
create_free id cidr [] w e = (refl, refl)
create_free id cidr (x ∷ found) w e = absurd (ground (arith, e))

create_taken :
    (id cidr : String) (found w : Dict String) (e : RouteSetType) (others : List RouteSetType)
    → entries found ≡ e ∷ others
    → create id cidr found w ≡ (record { status_code = 409; body = ok same_route }, w)
create_taken id cidr [] w e others taken = absurd (ground (arith, taken))
create_taken id cidr (x ∷ found) w e others taken = refl

refused_lem : contains (message (kop 409 same_route)) token_expired ≡ false
unfolding contains message decimal
refused_lem = refl

same_lem : contains same_route same_route ≡ true
unfolding contains
same_lem = refl

pub keeps_entries : KeepsEntries service conf false entries
unfolding serve
keeps_entries = record {
  identified = entries-Identified;
  vpc = λ w. serves get (vpc_query "vpc-1") w _ (_, refl, refl, (_, _, refl, refl, refl));
  lists = λ w.
      serves get (hosts_query "vpc-1" []) w _
        (_, refl, refl, (ap ok (read_entries-texts_of w), refl));
  filters = λ cidr w. serves get (hosts_query "vpc-1" (network_filter cidr)) w _ (
    _,
    refl,
    refl,
    (ap ok (read_entries-texts_of (of_network cidr w) ∙ of_network-entries cidr w), refl),
  );
  describes = λ id w e found. serves get (route_query id) w _ (
    _,
    refl,
    refl,
    (ap ok (read_entries-texts_of (with_id id w) ∙ with_id-entries id w e found), refl),
  );
  creates = λ id cidr w free.
      let (created, empty) =
        create_free id cidr (of_network cidr w) w (of_network-entries cidr w ∙ free) in
      serves post (create_query false "vpc-1" id cidr) w _ (
        rw created (
          _,
          refl,
          refl,
          (
            entry (cidr, id),
            refl,
            named cidr,
            id_free cidr w empty,
            refl,
            refl,
            map-append entry w ((cidr, id) ∷ []),
          ),
        ));
  refuses = λ id cidr w e others taken. serves post (create_query false "vpc-1" id cidr) w _ (
      rw (create_taken id cidr (of_network cidr w) w e others (of_network-entries cidr w ∙ taken))
        (_, refl, refl, refused_lem, (same_lem, refl)));
  alarms = λ w. serves post alarm_query w _ (_, refl, refl, refl);
  deletes = λ id w e found.
      serves delete (delete_query false id) w _ (_, refl, refl, without_id-entries id w);
}
