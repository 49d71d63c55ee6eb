-- ===== src/Card/Handlers.antt =====
-- The handlers of the cards' messages: internal/purchase/card/handler.go. The ids of messages, which a
-- generated file declares, are numbers. Action reads a field through the nil pointer of the request
-- before it decodes the message, which panics.
use greatestworks.Base.{Bool, List, Outcome, [], if◌then◌else◌, ite, panics, returns, ◌&&◌, ◌∷◌}
use greatestworks.Base.Int.{ltb_ℤ, pos, ℤ, ℤ_discrete}

-- A handler's function is left out: there is one, Action.
pub record Handler : Type 0 where
  pub id : ℤ

pub data Found : Type 0 where
  not_in not_exist : Found
  found : Handler → Found

-- MinMessageId and MaxMessageId, which nothing assigns, are 0.
abbrev pub zero_message_id : ℤ
zero_message_id = pos 0

unfoldable pub is_belong_to_here : ℤ → ℤ → ℤ → Bool
is_belong_to_here min_id max_id id = ltb_ℤ min_id id && ltb_ℤ id max_id

unfoldable pub handler_of : ℤ → List Handler → Found
handler_of id [] = not_exist
handler_of id (h ∷ hs) = ite (ℤ_discrete h.id id) (found h) (handler_of id hs)

unfoldable pub get_handler : ℤ → ℤ → List Handler → ℤ → Found
get_handler min_id max_id handlers id =
    if ltb_ℤ min_id id && ltb_ℤ id max_id then not_in else handler_of id handlers

-- The assignment to the first handler panics where there is none, as when the program starts.
unfoldable pub handler_card_register : ℤ → List Handler → Outcome (List Handler)
handler_card_register cs_card_action [] = panics
handler_card_register cs_card_action (h ∷ hs) = returns (record { id = cs_card_action } ∷ hs)
