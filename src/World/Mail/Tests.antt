-- ===== src/World/Mail/Tests.antt =====
-- Tests of the mails of a world, and their theorem at a concrete player.
use greatestworks.Base.{Bool, String_discrete, [], refl, returns, true, ◌∷◌, ◌≡◌}
use greatestworks.Base.Int.{pos, wrap, wrap_int, ◌+ℤ◌}
use greatestworks.Mail.{empty_mail, get, new_mail_container, set}
use greatestworks.World.Mail.{System, can_add, empty_data, expired, load_from_mgo, new_mail_system}
use greatestworks.World.Mail.News.{IsNew, can_add_lem}

-- Whatever the database holds, a player starts without mails.
starts_empty : (new_mail_system 7).container ≡ new_mail_container 7
unfolding new_mail_system load_from_mgo new_mail_container set String_discrete
starts_empty = refl

abbrev with_old : System
with_old = record {
  send_count = pos 0;
  container = record empty_data {
    recycle = record empty_mail { m_uuid = 4; m_time = pos 100 } ∷ [];
  };
}

old_expired :
    expired (pos 2) (pos 1000000) with_old
    ≡ returns (record empty_mail { m_uuid = 4; m_type = pos 2 } ∷ [])
unfolding expired get String_discrete wrap_int wrap ◌+ℤ◌
old_expired = refl

can_add_lem_example :
    (ok : Bool) × (can_add 4 with_old ≡ returns ok)
    × (ok ≡ true → IsNew 4 with_old)
    × (IsNew 4 with_old → ok ≡ true)
can_add_lem_example = can_add_lem 4 with_old
