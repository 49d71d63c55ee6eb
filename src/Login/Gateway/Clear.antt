-- ===== src/Login/Gateway/Clear.antt =====
-- `clearInvalid`: which gateways survive it.
use greatestworks.Base.{
  In, List, Option, String, String_discrete, [], ap, arith, false, if◌then◌else◌, ite, none, refl,
  some, sym, true, ◌↔◌, ◌∙◌, ◌∷◌, ◌≡◌, ◌≢◌, ◌⊎◌,
}
use greatestworks.Base.Int.{ℤ, ℤ_discrete}
use greatestworks.Base.SyncMap.{Distinct, SyncMap, keys, load, load-delete}
use greatestworks.Login.Config.{EndPoint, ServiceEntry}
use greatestworks.Login.Gateway.{
  GateWay, clear_invalid, contains, invalid, is_registered, remove_all, remove_end_point,
  remove_level,
}

-- Every gateway stands under its own id, which is not empty.
abbrev pub IsKeyed : SyncMap String EndPoint → Type 0
IsKeyed [] = Unit {0}
IsKeyed ((key, e) ∷ m) = (key ≡ e.id) × (e.id ≢ "") × IsKeyed m

-- What is left of a gateway of the map.
abbrev pub kept : ℤ → List ServiceEntry → Option EndPoint → Option EndPoint
kept zone services none = none
kept zone services (some e) =
    ite (ℤ_discrete e.zone_id zone) (if is_registered e services then some e else none) (some e)

abbrev NonEmpty : List String → Type 0
NonEmpty [] = Unit {0}
NonEmpty (id ∷ ids) = (id ≢ "") × NonEmpty ids

load-remove_end_point :
    (l : GateWay) (id j : String)
    → id ≢ ""
    → load String_discrete j (remove_end_point l id).endpoints
      ≡ ite (String_discrete id j) none (load String_discrete j l.endpoints)
unfolding remove_end_point remove_level
load-remove_end_point l id j h = ground (arith, load-delete String_discrete id j l.endpoints)

load-remove_all :
    (l : GateWay) (del : List String) (j : String)
    → NonEmpty del
    → load String_discrete j (remove_all l del).endpoints
      ≡ (if contains j del then none else load String_discrete j l.endpoints)
load-remove_all l [] j h = refl
load-remove_all l (id ∷ del) j h =
    ground
      (arith, load-remove_all (remove_end_point l id) del j h.1, load-remove_end_point l id j h.0)

invalid-NonEmpty :
    (zone : ℤ) (services : List ServiceEntry) (m : SyncMap String EndPoint)
    → IsKeyed m
    → NonEmpty (invalid zone services m).1
invalid-NonEmpty zone services [] k = tt
invalid-NonEmpty zone services ((key, e) ∷ m) k =
    ground (arith, invalid-NonEmpty zone services m k.2)

-- A key that is not in the map is not found.
not_loaded :
    (j : String) (m : SyncMap String EndPoint) → ¬ In j (keys m) → load String_discrete j m ≡ none
not_loaded j [] h = refl
not_loaded j ((k, e) ∷ m) h = ground (arith, not_loaded j m)

not_invalid :
    (zone : ℤ) (services : List ServiceEntry) (j : String) (m : SyncMap String EndPoint)
    → IsKeyed m
    → ¬ In j (keys m)
    → contains j (invalid zone services m).1 ≡ false
not_invalid zone services j [] k h = refl
not_invalid zone services j ((key, e) ∷ m) k h = ground (arith, not_invalid zone services j m k.2)

kept-load :
    (zone : ℤ) (services : List ServiceEntry) (j : String) (m : SyncMap String EndPoint)
    → IsKeyed m
    → Distinct m
    → (if contains j (invalid zone services m).1 then none else load String_discrete j m)
      ≡ kept zone services (load String_discrete j m)
kept-load zone services j [] k d = refl
kept-load zone services j ((key, e) ∷ m) k d =
    ground (
      arith,
      kept-load zone services j m k.2 d.1,
      not_loaded j m,
      not_invalid zone services j m k.2,
    )

load-clear_invalid-kept :
    (l : GateWay) (services : List ServiceEntry) (j : String)
    → IsKeyed l.endpoints
    → Distinct l.endpoints
    → load String_discrete j (clear_invalid l services).0.endpoints
      ≡ kept l.zone_id services (load String_discrete j l.endpoints)
unfolding clear_invalid
load-clear_invalid-kept l services j k d = rw (← kept-load l.zone_id services j l.endpoints k d) (
    load-remove_all l (invalid l.zone_id services l.endpoints).1 j
      (invalid-NonEmpty l.zone_id services l.endpoints k))

abbrev pub ids : List ServiceEntry → List String
ids [] = []
ids (s ∷ services) = s.id ∷ ids services

is_registered-In :
    (e : EndPoint) (services : List ServiceEntry)
    → e.id ≢ ""
    → (is_registered e services ≡ true) ↔ In e.id (ids services)
is_registered-In e [] h = ((λ p. ground (arith, p)), (λ p. absurd p))
is_registered-In e (s ∷ services) h = (
  λ p. ground (arith, h, p, (is_registered-In e services h).0),
  λ p. ground (arith, h, p, (is_registered-In e services h).1),
)

id-load :
    (j : String) (e : EndPoint) (m : SyncMap String EndPoint)
    → IsKeyed m
    → load String_discrete j m ≡ some e
    → e.id ≢ ""
id-load j e [] k h = absurd (cc)
id-load j e ((i, v) ∷ m) k h = ground (arith, k, h, id-load j e m k.2)

kept_iff :
    (zone : ℤ) (services : List ServiceEntry) (o : Option EndPoint) (e : EndPoint)
    → (o ≡ some e → e.id ≢ "")
    → (kept zone services o ≡ some e) ↔ (o ≡ some e) × ((e.zone_id ≢ zone) ⊎ In e.id (ids services))
kept_iff zone services none e h = ((λ p. absurd (cc)), (λ p. absurd (cc)))
kept_iff zone services (some v) e h = (
  λ p.
      let q : v ≡ e = ground (arith, p) in
      ground (arith, h, p, q, (is_registered-In e services (h (ap some q))).0),
  λ (p, q).
      let w : v ≡ e = ground (arith, p) in
      ground (arith, p, q, w, (is_registered-In e services (h p)).1),
)

-- `clearInvalid` keeps exactly the gateways of other zones and the ones of its zone that Consul
-- lists, each as it was, in a list whose gateways stand under their own non-empty ids, each id once.
pub load-clear_invalid :
    (l : GateWay) (services : List ServiceEntry) (j : String) (e : EndPoint)
    → IsKeyed l.endpoints
    → Distinct l.endpoints
    → (load String_discrete j (clear_invalid l services).0.endpoints ≡ some e)
      ↔ (load String_discrete j l.endpoints ≡ some e)
        × ((e.zone_id ≢ l.zone_id) ⊎ In e.id (ids services))
load-clear_invalid l services j e k d =
    let c = load-clear_invalid-kept l services j k d in
    let iff =
      kept_iff l.zone_id services (load String_discrete j l.endpoints) e
        (λ p. id-load j e l.endpoints k p) in
    ((λ p. iff.0 (sym c ∙ p)), (λ p. c ∙ iff.1 p))
