-- ===== src/World/CloseList/Refines.antt =====
-- The list of closed systems as a set of systems: server/world/server/system_close_list.go.
use mathlib.Core.Path.{fun_ext}
use greatestworks.Base.{
  Bool, In, List, Option, [], ap, arith, false, if◌then◌else◌, inr, none, refl, some, true, ℕ,
  ℕ_discrete, ◌%◌, ◌==◌, ◌^◌, ◌↔◌, ◌∙◌, ◌∷◌, ◌≡◌,
}
use greatestworks.Base.SyncMap.{
  Distinct, SyncMap, delete-Distinct, keys, load, load-delete, load-store, store_keeps_Distinct,
}
use greatestworks.Base.Text.{Text}
use greatestworks.Gateway.Clients.{close}
use greatestworks.World.CloseList.{
  SystemCloseList, closed, del_close_system, get_system_close_list, get_system_in_close_list,
  load_from_redis, loaded, parse_bool, set_close_system, system_close_list, system_of,
}

-- The calls that change the list.
pub data Op : Type 0 where
  load_op : List (Text × Text) → Op
  set_op : ℕ → Bool → Op
  del_op : ℕ → Op

abbrev pub apply : Op → SystemCloseList → SystemCloseList
apply (load_op l) scl = load_from_redis l scl
apply (set_op sys close) scl = set_close_system sys close scl
apply (del_op sys) scl = del_close_system sys scl

unfoldable pub run_ops : List Op → SystemCloseList → SystemCloseList
run_ops [] scl = scl
run_ops (op ∷ ops) scl = run_ops ops (apply op scl)

-- The set of closed systems, by its test, and what the calls mean for it.
abbrev pub ClosedSet : Type 0
ClosedSet = ℕ → Bool

abbrev pub with_system : ℕ → Bool → ClosedSet → ClosedSet
with_system sys b f k = if sys == k then b else f k

abbrev pub closing_entry : Option Bool → Option ℕ → ClosedSet → ClosedSet
closing_entry none sys f = f
closing_entry (some false) sys f = f
closing_entry (some true) none f = f
closing_entry (some true) (some sys) f = with_system (sys % 2 ^ 32) true f

unfoldable pub with_entries : List (Text × Text) → ClosedSet → ClosedSet
with_entries [] f = f
with_entries ((k, v) ∷ l) f = with_entries l (closing_entry (parse_bool v) (system_of k) f)

abbrev pub meaning : Op → ClosedSet → ClosedSet
meaning (load_op l) f = with_entries l f
meaning (set_op sys close) f = with_system sys close f
meaning (del_op sys) f = with_system sys false f

unfoldable pub meanings : List Op → ClosedSet → ClosedSet
meanings [] f = f
meanings (op ∷ ops) f = meanings ops (meaning op f)

abbrev pub Nodup : List ℕ → Type 0
Nodup [] = Unit
Nodup (x ∷ xs) = (¬ In x xs) × Nodup xs

abbrev view : SystemCloseList → ClosedSet
view scl k = get_system_in_close_list k scl

view-del :
    (sys : ℕ) (scl : SystemCloseList)
    → view (del_close_system sys scl) ≡ with_system sys false (view scl)
unfolding del_close_system get_system_in_close_list
view-del sys scl = fun_ext λ k. ground (arith, load-delete ℕ_discrete sys k scl.close_list)

view-set :
    (sys : ℕ) (b : Bool) (scl : SystemCloseList)
    → view (set_close_system sys b scl) ≡ with_system sys b (view scl)
unfolding set_close_system get_system_in_close_list
view-set sys true scl = fun_ext λ k. ground (arith, load-store ℕ_discrete sys k true scl.close_list)
view-set sys false scl = view-del sys scl

view-loaded :
    (b : Option Bool) (sys : Option ℕ) (scl : SystemCloseList)
    → view (loaded b sys scl) ≡ closing_entry b sys (view scl)
unfolding loaded get_system_in_close_list
view-loaded none sys scl = refl
view-loaded (some false) sys scl = refl
view-loaded (some true) none scl = refl
view-loaded (some true) (some sys) scl =
    fun_ext λ k. ground (arith, load-store ℕ_discrete (sys % 2 ^ 32) k true scl.close_list)

view-load :
    (l : List (Text × Text)) (scl : SystemCloseList)
    → view (load_from_redis l scl) ≡ with_entries l (view scl)
unfolding load_from_redis with_entries
view-load [] scl = refl
view-load ((k, v) ∷ l) scl =
    view-load l (loaded (parse_bool v) (system_of k) scl)
    ∙ ap (with_entries l) (view-loaded (parse_bool v) (system_of k) scl)

view-apply : (op : Op) (scl : SystemCloseList) → view (apply op scl) ≡ meaning op (view scl)
view-apply (load_op l) scl = view-load l scl
view-apply (set_op sys close) scl = view-set sys close scl
view-apply (del_op sys) scl = view-del sys scl

view-run_ops :
    (ops : List Op) (scl : SystemCloseList) → view (run_ops ops scl) ≡ meanings ops (view scl)
unfolding run_ops meanings
view-run_ops [] scl = refl
view-run_ops (op ∷ ops) scl =
    view-run_ops ops (apply op scl) ∙ ap (meanings ops) (view-apply op scl)

loaded-Distinct :
    (b : Option Bool) (sys : Option ℕ) (scl : SystemCloseList)
    → Distinct scl.close_list
    → Distinct (loaded b sys scl).close_list
unfolding loaded
loaded-Distinct none sys scl d = d
loaded-Distinct (some false) sys scl d = d
loaded-Distinct (some true) none scl d = d
loaded-Distinct (some true) (some sys) scl d =
    store_keeps_Distinct ℕ_discrete (sys % 2 ^ 32) true scl.close_list d

load-Distinct :
    (l : List (Text × Text)) (scl : SystemCloseList)
    → Distinct scl.close_list
    → Distinct (load_from_redis l scl).close_list
unfolding load_from_redis
load-Distinct [] scl d = d
load-Distinct ((k, v) ∷ l) scl d =
    load-Distinct l _ (loaded-Distinct (parse_bool v) (system_of k) scl d)

del-Distinct :
    (sys : ℕ) (scl : SystemCloseList)
    → Distinct scl.close_list
    → Distinct (del_close_system sys scl).close_list
unfolding del_close_system
del-Distinct sys scl d = ground (arith, d, delete-Distinct ℕ_discrete sys scl.close_list d)

apply-Distinct :
    (op : Op) (scl : SystemCloseList) → Distinct scl.close_list → Distinct (apply op scl).close_list
unfolding set_close_system
apply-Distinct (load_op l) scl d = load-Distinct l scl d
apply-Distinct (set_op sys true) scl d = store_keeps_Distinct ℕ_discrete sys true scl.close_list d
apply-Distinct (set_op sys false) scl d = del-Distinct sys scl d
apply-Distinct (del_op sys) scl d = del-Distinct sys scl d

run_ops-Distinct :
    (ops : List Op) (scl : SystemCloseList)
    → Distinct scl.close_list
    → Distinct (run_ops ops scl).close_list
unfolding run_ops
run_ops-Distinct [] scl d = d
run_ops-Distinct (op ∷ ops) scl d = run_ops-Distinct ops _ (apply-Distinct op scl d)

abbrev is_closed : ℕ → SyncMap ℕ Bool → Bool
is_closed k m = elim (load ℕ_discrete k m) [ none ↦ false | some b ↦ b ]

In-closed-keys : (k : ℕ) (m : SyncMap ℕ Bool) → In k (closed m) → In k (keys m)
unfolding closed
In-closed-keys k [] h = h
In-closed-keys k ((j, true) ∷ m) h = ground (arith, In-closed-keys k m)
In-closed-keys k ((j, false) ∷ m) h = inr (In-closed-keys k m h)

closed_sound : (k : ℕ) (m : SyncMap ℕ Bool) → Distinct m → In k (closed m) → is_closed k m ≡ true
unfolding closed
closed_sound k [] d h = absurd h
closed_sound k ((j, true) ∷ m) d h = ground (arith, closed_sound k m)
closed_sound k ((j, false) ∷ m) d h = ground (arith, closed_sound k m, In-closed-keys k m)

closed_complete : (k : ℕ) (m : SyncMap ℕ Bool) → is_closed k m ≡ true → In k (closed m)
unfolding closed
closed_complete k [] h = absurd (cc)
closed_complete k ((j, true) ∷ m) h = ground (arith, closed_complete k m)
closed_complete k ((j, false) ∷ m) h = ground (arith, closed_complete k m)

closed-Nodup : (m : SyncMap ℕ Bool) → Distinct m → Nodup (closed m)
unfolding closed
closed-Nodup [] d = d
closed-Nodup ((j, true) ∷ m) (n, d) = ((λ h. n (In-closed-keys j m h)), closed-Nodup m d)
closed-Nodup ((j, false) ∷ m) (n, d) = closed-Nodup m d

-- After any calls, a system is in the list exactly if the calls mean that it is closed: the last
-- call that opens or closes it counts, where a load from Redis closes what it names and opens
-- nothing. getSystemCloseList lists these systems, each once.
pub close_list_refines :
    (ops : List Op)
    → let scl = run_ops ops system_close_list in
      let set = meanings ops (λ k. false) in
      ((k : ℕ) → get_system_in_close_list k scl ≡ set k)
      × ((k : ℕ) → In k (get_system_close_list scl) ↔ (set k ≡ true))
      × Nodup (get_system_close_list scl)
unfolding get_system_close_list get_system_in_close_list
close_list_refines ops =
    let scl = run_ops ops system_close_list in
    let d : Distinct scl.close_list = run_ops-Distinct ops system_close_list tt in
    let e : view scl ≡ meanings ops (λ k. false) = view-run_ops ops system_close_list in
    let at : (k : ℕ) → is_closed k scl.close_list ≡ meanings ops (λ k. false) k =
      λ k. ap (λ f. f k) e in
    (
      at,
      λ k. (
        λ h. rw (← (at k)) (closed_sound k scl.close_list d h),
        λ h. closed_complete k scl.close_list (at k ∙ h),
      ),
      closed-Nodup scl.close_list d,
    )
