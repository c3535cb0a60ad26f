-- ===== src/Mail.antt =====
-- src/hall_server/player_mail.go: the mail boxes of players. A box is kept apart from the player's
-- resources, which Player/State has; the locks make each operation one step.
pub mod Send
pub mod Box
pub mod Claim
pub mod Negative
pub mod Unpaid
pub mod Handlers
pub mod System
pub mod Oldest
pub mod OneMore
pub mod Resent
pub mod Delivered
use Prim.Native.String.{String}
use ih_server.Base.{
  ℕ, ◌-◌, ◌%◌, ltb, ◌==◌, ℤ, pos, negsuc, ◌+₃₂◌, ◌-₃₂◌, ◌*₃₂◌, ◌<?◌, ◌≤?◌, ◌=?◌, List, [], ◌∷◌,
  ◌++◌, Option, none, some, Bool, true, false, not, ◌&&◌, ◌||◌, if◌then◌else◌, length, lookup,
  insert, delete, has_index, Dict, map,
}
use ih_server.Player.Env.{Env, Slice}
use ih_server.Player.State.{Player, value_or_zero}
use ih_server.Player.Resource.ById.{add_resource}

-- dbPlayerMailData; a nil slice of attachments is an empty one, which no operation tells apart.
pub record MailData : Type 0 where
  pub id : ℤ
  pub typ : ℤ
  pub subtype : ℤ
  pub title : String
  pub content : String
  pub send_unix : ℤ
  pub attach_item_ids : List ℤ
  pub attach_item_nums : List ℤ
  pub is_read : ℤ
  pub is_get_attached : ℤ
  pub sender_id : ℤ
  pub sender_name : String
  pub extra_value : ℤ

-- MailBasicData: what a list of mails shows of a mail.
pub record MailBasicData : Type 0 where
  pub id : ℤ
  pub typ : ℤ
  pub subtype : ℤ
  pub title : String
  pub sender_id : ℤ
  pub sender_name : String
  pub send_time : ℤ
  pub is_read : Bool
  pub is_get_attached : Bool
  pub has_attached : Bool
  pub value : ℤ

-- The MailBasicData that GetMailList and GetMailListByIds make of a mail.
unfoldable pub basic_data : MailData → MailBasicData
basic_data d = record {
  id = d.id;
  typ = d.typ;
  subtype = d.subtype;
  title = d.title;
  sender_id = d.sender_id;
  sender_name = d.sender_name;
  send_time = d.send_unix;
  is_read = pos 0 <? d.is_read;
  is_get_attached = pos 0 <? d.is_get_attached;
  has_attached = ltb 0 (length d.attach_item_ids);
  value = d.extra_value;
}

-- The messages that are sent about mails.
pub data MailMessage : Type 0 where
  mails_new_notify mail_list_response : List MailBasicData → MailMessage
  mail_detail : List (ℤ × String × List (ℤ × ℤ)) → MailMessage
  attached_items : List ℤ → Dict ℤ → MailMessage
  mail_delete : List ℤ → MailMessage

-- What a player's row has of mails, with the messages that were sent, in order. `sys_mail_id` is
-- SysMail.CurrId, and `none` is the nil list of new mails.
pub record Mailbox : Type 0 where
  pub mails : Dict MailData
  pub curr_id : ℤ
  pub last_send_player_mail_time : ℤ
  pub new_mail_ids : Option (List ℤ)
  pub sys_mail_id : ℤ
  pub sent : List MailMessage

-- Values of global_config and of tables that mails alone read, and the roles and guilds: whether a card
-- has rank 1, whether Roles.NumAll() has reached MaxRoleCount, new_role of that card, the members of
-- the guild of a player, and the player's position in it.
pub record MailEnv : Type 0 where
  pub mail_max_count : ℤ
  pub mail_title_bytes : ℤ
  pub mail_content_bytes : ℤ
  pub mail_attach_exist_days : ℤ
  pub mail_normal_exist_days : ℤ
  pub mail_player_send_cooldown : ℤ
  pub mail_subtypes : List ℤ
  pub has_rank_card : ℤ → Bool
  pub roles_full : Player → Bool
  pub new_role : ℤ → Player → Player
  pub guild_members : ℤ → Option (List ℤ)
  pub guild_position : ℤ → ℤ

-- What the operations return: 1, -1, 0, an error code, or the id of a mail.
pub data MailRet : Type 0 where
  mail_success mail_failure mail_zero mail_not_found mail_no_attached_item mail_send_failed :
      MailRet
  mail_receiver_not_found mail_player_is_cooldown mail_title_too_long : MailRet
  mail_content_too_long mail_subtype_unknown : MailRet
  mail_sent : ℤ → MailRet

abbrev pub post : MailMessage → Mailbox → Mailbox
post m b = record b { sent = b.sent ++ m ∷ [] }

-- The least index, as new_mail looks for it: a first index of zero is replaced.
unfoldable pub first_index : List ℤ → ℤ → ℤ
first_index [] first = first
first_index (id ∷ ids) first = first_index ids (if id <? first || first =? pos 0 then id else first)

-- The indices of a map: GetAllIndex
abbrev pub all_index {ℓ} : {V : Type ℓ} → Dict V → List ℤ
all_index [] = []
all_index ((k, v) ∷ m) = k ∷ all_index m

-- new_mail, its removal of the first mail where the box is full
unfoldable pub make_room : ℤ → Dict MailData → Dict MailData
make_room max mails =
    let first = first_index (all_index mails) (pos 0) in
    if not (max ≤? pos (length mails))
    then mails
    else if pos 0 <? first
    then delete first mails
    else mails

-- int8(n)
unfoldable pub as_int8 : ℤ → ℤ
as_int8 (pos n) = let r = n % 256 in if ltb r 128 then pos r else negsuc (255 - r)
as_int8 (negsuc n) = let r = n % 256 in if ltb r 128 then negsuc r else pos (255 - r)

-- Mails.Add, which keeps a mail that is there
abbrev add_mail : MailData → Dict MailData → Dict MailData
add_mail d mails = if has_index d.id mails then mails else insert d.id d mails

-- The mail that new_mail adds.
abbrev pub unread_mail : Env → ℤ → ℤ → ℤ → String → String → String → ℤ → ℤ → MailData
unread_mail e typ subtype sender_id sender_name title content extra_value new_id = record {
  id = new_id;
  typ = as_int8 typ;
  subtype = subtype;
  title = title;
  content = content;
  send_unix = e.now;
  attach_item_ids = [];
  attach_item_nums = [];
  is_read = pos 0;
  is_get_attached = pos 0;
  sender_id = sender_id;
  sender_name = sender_name;
  extra_value = extra_value;
}

-- new_mail
unfoldable pub new_mail :
    Env → MailEnv → ℤ → ℤ → ℤ → String → String → String → ℤ → Mailbox → Mailbox × ℤ
new_mail e m typ subtype sender_id sender_name title content extra_value b =
    let new_id = b.curr_id +₃₂ pos 1 in
    (
      record b {
        curr_id = new_id;
        mails =
            add_mail
              (unread_mail e typ subtype sender_id sender_name title content extra_value new_id)
              (make_room m.mail_max_count b.mails);
      },
      new_id,
    )

-- A change to a mail that is there.
abbrev pub change : ℤ → (MailData → MailData) → Mailbox → Mailbox
change id f b = elim (lookup id b.mails) [
  | none ↦ b
  | some d ↦ record b { mails = insert id (f d) b.mails }
]

-- attach_mail_item
unfoldable pub attach_mail_item : ℤ → ℤ → ℤ → Mailbox → Mailbox × MailRet
attach_mail_item mail_id item_id item_num b = elim (lookup mail_id b.mails) [
  | none ↦ (b, mail_not_found)
  | some d ↦ (
    change mail_id
        (λ (x : MailData). record x {
          attach_item_ids = x.attach_item_ids ++ item_id ∷ [];
          attach_item_nums = x.attach_item_nums ++ item_num ∷ [];
        })
        b,
    mail_success,
  )
]

-- delete_mail
unfoldable pub delete_mail : ℤ → Mailbox → Mailbox × MailRet
delete_mail mail_id b =
    if has_index mail_id b.mails
    then (record b { mails = delete mail_id b.mails }, mail_success)
    else (b, mail_not_found)

-- cache_new_mail
unfoldable pub cache_new_mail : ℤ → Mailbox → Mailbox
cache_new_mail id b = record b {
  new_mail_ids = some (elim b.new_mail_ids [ none ↦ id ∷ [] | some l ↦ l ++ id ∷ [] ]);
}

-- _get_items_info_from; the empty list is nil.
unfoldable pub get_items_info_from : List ℤ → List ℤ → List (ℤ × ℤ)
get_items_info_from [] nums = []
get_items_info_from (id ∷ ids) [] = []
get_items_info_from (id ∷ ids) (n ∷ nums) = (id, n) ∷ get_items_info_from ids nums

-- GetMailListByIds: the mails of a list of ids that are there.
unfoldable pub get_mail_list_by_ids : List ℤ → Dict MailData → List MailBasicData
get_mail_list_by_ids [] mails = []
get_mail_list_by_ids (id ∷ ids) mails =
    let rest = get_mail_list_by_ids ids mails in
    elim (lookup id mails) [ none ↦ rest | some d ↦ basic_data d ∷ rest ]

-- CheckNewMail, with get_and_clear_cache_new_mails
unfoldable pub check_new_mail : Mailbox → Mailbox
check_new_mail b = elim b.new_mail_ids [
  | none ↦ b
  | some ids ↦
      let c = record b { new_mail_ids = none } in
      elim (get_mail_list_by_ids ids b.mails) [
        | [] ↦ c
        | d ∷ ds ↦ post (mails_new_notify (d ∷ ds)) c
      ]
]
