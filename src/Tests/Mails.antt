-- ===== src/Tests/Mails.antt =====
-- Mails at concrete inputs.
use ih_server.Base.{
  if◌then◌else◌, ◌=?◌, =?-iff, inr, ◌+ℤ◌, ◌≤◌, ℤ, pos, negsuc, ◌-₃₂◌, ◌*₃₂◌, ◌-ℤ◌, ◌*ℤ◌, wrap32,
  ◌≤ℤ◌, ◌<?◌, [], ◌∷◌, Option, none, some, true, false, length, lookup, delete, has_index, Dict,
  ◌≡◌, ◌≢◌, ◌⊎◌, refl, arith,
}
use ih_server.Player.Resource.{get_item}
use ih_server.Player.Resource.ById.{add_resource, get_resource}
use ih_server.Mail.{
  basic_data, MailData, Mailbox, MailEnv, mail_success, mail_send_failed, mail_not_found, mail_sent,
  mail_list_response, mail_delete, mails_new_notify, as_int8, unread_mail, new_mail, delete_mail,
  get_items_info_from, get_mail_list_by_ids, check_new_mail,
}
use ih_server.Mail.Handlers.{
  is_expired, live_mails, get_mail_list, has_unread_mail, read_mails, get_mail_detail,
  get_mail_attached_items, remove_mails, delete_mails,
}
use ih_server.Mail.Send.{system_mail, Sender, check_sending, send_mail, player_mail}
use ih_server.Mail.System.{SysMail, check_system_mail}
use ih_server.Mail.Box.{InOrder, new_mail-InOrder}
use ih_server.Player.Resource.Price.{IsSpendable}
use ih_server.Player.Resource.Reward.{IsReward, sum_of}
use ih_server.Mail.Delivered.{HasRoom, Delivered}
use ih_server.Mail.Claim.{RoomTwice, get_mail_attached_items_again}
use ih_server.Mail.Unpaid.{send_mail_unpaid}
use ih_server.Mail.Negative.{send_mail_negative}
use ih_server.Mail.Resent.{check_system_mail_again}
use ih_server.Tests.World.{world, hero, plain_item}

abbrev mail_env : MailEnv
mail_env = record {
  mail_max_count = pos 2;
  mail_title_bytes = pos 20;
  mail_content_bytes = pos 100;
  mail_attach_exist_days = pos 15;
  mail_normal_exist_days = pos 7;
  mail_player_send_cooldown = pos 10;
  mail_subtypes = pos 4 ∷ [];
  has_rank_card = λ id. false;
  roles_full = λ p. false;
  new_role = λ id p. p;
  guild_members = λ id. none;
  guild_position = λ id. pos 0;
}

abbrev mail : ℤ → MailData
mail id = unread_mail world player_mail (pos 0) (pos 1) "ann" "hi" "text" (pos 0) id

abbrev parcel : MailData
parcel = record (mail (pos 4)) { attach_item_ids = pos 100 ∷ []; attach_item_nums = pos 30 ∷ [] }

abbrev full_box : Mailbox
full_box = record {
  mails = (pos 5, mail (pos 5)) ∷ (pos 4, parcel) ∷ [];
  curr_id = pos 5;
  last_send_player_mail_time = pos 0;
  new_mail_ids = some (pos 5 ∷ []);
  sys_mail_id = pos 2;
  sent = [];
}

full-InOrder : InOrder 2 full_box
full-InOrder = record {
  count = omega arith;
  ids = (omega arith, omega arith, (omega arith, omega arith, tt));
  given = omega arith;
}

new_mail-InOrder_example :
    let (q, id) =
      new_mail world mail_env player_mail (pos 0) (pos 1) "ann" "hi" "text" (pos 0) full_box in
    InOrder 2 q
    × (id ≡ pos 6)
    × ((d : MailData) × (lookup id q.mails ≡ some d)
        × (d.attach_item_ids ≡ [])
        × (d.attach_item_nums ≡ [])
        × (d.is_read ≡ pos 0)
        × (d.is_get_attached ≡ pos 0))
    × ((k : ℤ)
        → k ≢ id
        → (lookup k q.mails ≡ lookup k full_box.mails)
          ⊎ (2 ≤ length full_box.mails
              × ((j : ℤ) → has_index j full_box.mails ≡ true → k ≤ℤ j)
              × (lookup k q.mails ≡ none)))
new_mail-InOrder_example =
    new_mail-InOrder world mail_env player_mail (pos 0) (pos 1) (pos 0) "ann" "hi" "text" 2 full_box
      (omega arith) refl full-InOrder (omega arith)

parcel_there : lookup (pos 4) full_box.mails ≡ some parcel
unfolding lookup
parcel_there = refl

parcel_items :
    get_items_info_from parcel.attach_item_ids parcel.attach_item_nums ≡ (pos 100, pos 30) ∷ []
unfolding get_items_info_from
parcel_items = refl

parcel-IsReward : IsReward world ((pos 100, pos 30) ∷ [])
parcel-IsReward =
    (inr (inr (inr (inr (plain_item, refl, ground arith, ground arith)))), omega arith, tt)

hero-RoomTwice : RoomTwice ((pos 100, pos 30) ∷ []) hero
unfolding get_resource lookup ◌+ℤ◌
hero-RoomTwice j s = ground arith

get_mail_attached_items_again_example :
    let (q, c, first) = get_mail_attached_items world mail_env (some (pos 4 ∷ [])) hero full_box in
    let (r, f, second) = get_mail_attached_items world mail_env (some (pos 4 ∷ [])) q c in
    (first ≡ mail_success)
    × ((j : ℤ)
        → IsSpendable j
        → get_resource q j ≡ get_resource hero j +ℤ sum_of j ((pos 100, pos 30) ∷ []))
    × ((t : MailData) × (lookup (pos 4) c.mails ≡ some t) × (t.is_get_attached ≡ pos 1))
    × (second ≡ mail_success)
    × ((j : ℤ)
        → IsSpendable j
        → get_resource r j
          ≡ get_resource hero j
            +ℤ sum_of j ((pos 100, pos 30) ∷ [])
            +ℤ sum_of j ((pos 100, pos 30) ∷ []))
get_mail_attached_items_again_example =
    get_mail_attached_items_again world mail_env (pos 4) parcel (pos 100, pos 30) [] hero full_box
      parcel_items parcel_there ((plain_item, refl), tt) parcel-IsReward hero-RoomTwice

abbrev ann : Sender
ann = record { id = pos 1; name = "ann"; wallet = hero }

abbrev boxes : Dict Mailbox
boxes = (pos 3, full_box) ∷ []

passed : check_sending world mail_env (some ann) player_mail (pos 0) "hi" "text" boxes ≡ none
unfolding check_sending lookup ◌-₃₂◌ ◌-ℤ◌ wrap32
passed = refl

box_there : lookup (pos 3) boxes ≡ some full_box
unfolding lookup
box_there = refl

owns : pos 0 ≤ℤ get_item ann.wallet (pos 100)
unfolding lookup
owns = omega arith

enough_first : (get_item ann.wallet (pos 100) <? pos 3) ≡ false
unfolding lookup
enough_first = refl

too_few_second : (get_item ann.wallet (pos 50) <? pos 9) ≡ true
unfolding lookup
too_few_second = refl

send_mail_negative_example :
    let (after, sender, code) =
      send_mail world mail_env
        (some ann)
        (pos 3)
        player_mail
        (pos 0)
        "hi"
        "text"
        ((pos 100, negsuc 4) ∷ [])
        (pos 0)
        boxes in
    (sender ≡ some (record ann { wallet = (add_resource world (pos 100) (pos 5) hero).0 }))
    × ((mail_id : ℤ) × (code ≡ mail_sent mail_id))
send_mail_negative_example =
    send_mail_negative world mail_env ann (pos 3) (pos 100) 4 2 "hi" "text" full_box boxes passed
      box_there (omega arith) refl full-InOrder (omega arith) owns (omega arith)

send_mail_unpaid_example :
    let (after, sender, code) =
      send_mail world mail_env
        (some ann)
        (pos 3)
        player_mail
        (pos 0)
        "hi"
        "text"
        ((pos 100, pos 3) ∷ (pos 50, pos 9) ∷ [])
        (pos 0)
        boxes in
    (code ≡ mail_send_failed)
    × (sender ≡ some ann)
    × ((b : Mailbox) × (mail_id : ℤ) × (d : MailData) × (lookup (pos 3) after ≡ some b)
        × (lookup mail_id b.mails ≡ some d)
        × (d.attach_item_ids ≡ pos 100 ∷ [])
        × (d.attach_item_nums ≡ pos 3 ∷ []))
send_mail_unpaid_example =
    send_mail_unpaid world mail_env ann (pos 3) (pos 100) (pos 3) (pos 50) (pos 9) 2 "hi" "text"
      full_box boxes passed box_there (omega arith) refl full-InOrder (omega arith) enough_first
      too_few_second

-- A mail to all players under the id 3 alone.
abbrev gift : SysMail
gift = record { table_id = pos 4; send_time = pos 99999; item_list = pos 100 ∷ pos 5 ∷ [] }

abbrev sys_mails : ℤ → Option SysMail
sys_mails id = if id =? pos 3 then some gift else none

abbrev roomy_env : MailEnv
roomy_env = record mail_env { mail_max_count = pos 4 }

full-HasRoom : HasRoom 4 2 full_box.curr_id full_box.mails
unfolding lookup
full-HasRoom = record {
  room = omega arith;
  free = λ k above. ground (arith, above, =?-iff (pos 5) k, =?-iff (pos 4) k);
  given = omega arith;
  high = omega arith;
}

gift_passes :
    (bs : Dict Mailbox) → check_sending world roomy_env none system_mail (pos 4) "" "" bs ≡ none
unfolding check_sending
gift_passes bs = refl

check_system_mail_again_example :
    let once = check_system_mail world roomy_env sys_mails (pos 99999) (pos 3) (pos 3) boxes in
    let twice = check_system_mail world roomy_env sys_mails (pos 99999) (pos 4) (pos 3) once in
    (b : Mailbox) × (c : Mailbox) × (lookup (pos 3) once ≡ some b)
    × (lookup (pos 3) twice ≡ some c)
    × Delivered (pos 6) b.mails gift
    × (lookup (pos 7) b.mails ≡ none)
    × Delivered (pos 6) c.mails gift
    × Delivered (pos 7) c.mails gift
check_system_mail_again_example =
    check_system_mail_again world roomy_env sys_mails (pos 99999) (pos 3) 4 2 gift full_box boxes
      box_there refl (omega arith) refl refl refl (omega arith) gift_passes refl full-HasRoom

-- The handlers that no theorem is about.
lists : get_mail_list world mail_env full_box ≡ (
  record full_box {
    new_mail_ids = none;
    sent = mail_list_response (basic_data (mail (pos 5)) ∷ basic_data parcel ∷ []) ∷ [];
  },
  mail_success,
)
unfolding get_mail_list live_mails is_expired as_int8 ◌-₃₂◌ ◌-ℤ◌ ◌*₃₂◌ ◌*ℤ◌ wrap32
lists = refl

deletes : delete_mails (some (pos 5 ∷ [])) full_box ≡ (
  record full_box { mails = (pos 4, parcel) ∷ []; sent = mail_delete (pos 5 ∷ []) ∷ [] },
  mail_success,
)
unfolding delete_mails remove_mails delete lookup
deletes = refl

reads : (get_mail_detail (some (pos 9 ∷ [])) full_box).1 ≡ mail_not_found
unfolding get_mail_detail read_mails lookup
reads = refl

notifies : check_new_mail full_box ≡ record full_box {
  new_mail_ids = none;
  sent = mails_new_notify (basic_data (mail (pos 5)) ∷ []) ∷ [];
}
unfolding check_new_mail get_mail_list_by_ids lookup as_int8
notifies = refl

unread : has_unread_mail world mail_env full_box.mails ≡ true
unfolding has_unread_mail ◌-₃₂◌ ◌-ℤ◌ ◌*₃₂◌ ◌*ℤ◌ wrap32
unread = refl

removes : (delete_mail (pos 5) full_box).1 ≡ mail_success
unfolding delete_mail lookup
removes = refl
