-- ===== src/Card/Forgets.antt =====
-- Execute works on a copy of the card: internal/purchase/card/card.go.
use greatestworks.Base.{
  List, Option, Outcome, Outcome-cases, [], arith, inl, inr, none, panics, returns, some, ℕ,
  ℕ_discrete, ◌<◌, ◌∙◌, ◌∷◌, ◌≡◌,
}
use greatestworks.Base.Int.{pos, ℤ}
use greatestworks.Base.SyncMap.{load}
use greatestworks.Card.{
  CardAction, CardData, CardError, Category, Config, act, card_of, check_is_expired, daily_receive,
  daily_received, execute, today_had_received,
}

pub record Call : Type 0 where
  pub now : ℤ
  pub category : Category
  pub action : CardAction

module _ (zone : ℤ) (confs : Category → Option Config) where
  -- Calls of Execute, one after the other.
  abbrev pub run_calls : List Call → CardData → Outcome CardData
  run_calls [] d = returns d
  run_calls (call ∷ calls) d = elim (execute zone confs call.now d call.category call.action) [
    | panics ↦ panics
    | returns (d', err) ↦ run_calls calls d'
  ]

  execute-kept :
      (now : ℤ) (d d' : CardData) (cat : Category) (a : CardAction) (err : Option CardError)
      → execute zone confs now d cat a ≡ returns (d', err)
      → d' ≡ d
  unfolding execute
  execute-kept now d d' cat a err h = elim (Outcome-cases (act zone confs now a (card_of d cat))) [
    | inl e ↦ absurd (ground (arith, e, h))
    | inr (r, e) ↦ ground (arith, e, h)
  ]

  run_calls-kept : (calls : List Call) (d d' : CardData) → run_calls calls d ≡ returns d' → d' ≡ d
  run_calls-kept [] d d' h = ground (arith, h)
  run_calls-kept (call ∷ calls) d d' h =
      elim (Outcome-cases (execute zone confs call.now d call.category call.action)) [
        | inl e ↦ absurd (ground (arith, e, h))
        | inr ((d1, err), e) ↦
            let same = execute-kept call.now d d1 call.category call.action err e in
            run_calls-kept calls d1 d' (ground (arith, e, h)) ∙ same
      ]

  -- Whatever is bought and renewed, and whenever, the daily reward of a card that the player did
  -- not have at first is never given: after any calls that do not panic, and at any time after
  -- 1970 began, the answer is the error.
  pub daily-Refused :
      (calls : List Call) (d d' : CardData) (cat : Category) (now : ℕ)
      → load ℕ_discrete cat d.cards ≡ none
      → 0 < now
      → run_calls calls d ≡ returns d'
      → execute zone confs (pos now) d' cat daily_received ≡ returns (d', some today_had_received)
  unfolding execute card_of act daily_receive check_is_expired
  daily-Refused calls d d' cat now h k r =
      let same = run_calls-kept calls d d' r in
      let none_left : load ℕ_discrete cat d'.cards ≡ none = ground (arith, same, h) in
      ground (arith, none_left, k)
