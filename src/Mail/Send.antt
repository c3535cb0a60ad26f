-- ===== src/Mail/Send.antt =====
-- src/hall_server/player_mail.go: how a mail is sent, by a player or by the system.
use Prim.Native.String.{String, len}
use ih_server.Base.{
  ℤ, pos, ◌-₃₂◌, ◌<?◌, ◌≤?◌, ◌=?◌, List, [], ◌∷◌, Option, none, some, Bool, true, false, not,
  contains, if◌then◌else◌, lookup, insert, Dict,
}
use ih_server.Player.Env.{Env, Slice}
use ih_server.Player.State.{Player, pairs}
use ih_server.Player.Resource.{get_item}
use ih_server.Player.Resource.ById.{cost_pairs}
use ih_server.Mail.{
  MailEnv, Mailbox, MailRet, mail_failure, mail_zero, mail_success, mail_send_failed,
  mail_receiver_not_found, mail_player_is_cooldown, mail_title_too_long, mail_content_too_long,
  mail_subtype_unknown, mail_sent, new_mail, attach_mail_item, cache_new_mail,
}

-- A player that sends a mail: its id and name, and its resources.
pub record Sender : Type 0 where
  pub id : ℤ
  pub name : String
  pub wallet : Player

-- MAIL_TYPE_SYSTEM, MAIL_TYPE_PLAYER and MAIL_TYPE_GUILD
abbrev pub system_mail : ℤ
system_mail = pos 1

abbrev pub player_mail : ℤ
player_mail = pos 2

abbrev pub guild_mail : ℤ
guild_mail = pos 3

-- GUILD_POSITION_MEMBER
abbrev guild_position_member : ℤ
guild_position_member = pos 0

-- GetLastSendPlayerMailTime
abbrev last_send_time : Option Mailbox → ℤ
last_send_time none = pos 0
last_send_time (some b) = b.last_send_player_mail_time

abbrev id_of : Option Sender → ℤ
id_of none = pos 0
id_of (some s) = s.id

abbrev name_of : Option Sender → String
name_of none = ""
name_of (some s) = s.name

-- RealSendMail, its checks before there is a receiver; `none` where they pass.
unfoldable pub check_sending :
    Env → MailEnv → Option Sender → ℤ → ℤ → String → String → Dict Mailbox → Option MailRet
check_sending e m sender typ subtype title content boxes =
    if m.mail_title_bytes <? pos (len title)
    then some mail_title_too_long
    else if m.mail_content_bytes <? pos (len content)
    then some mail_content_too_long
    else if typ =? player_mail
    then (elim sender [
      | none ↦ some mail_failure
      | some s ↦
          if e.now -₃₂ last_send_time (lookup s.id boxes) <? m.mail_player_send_cooldown
          then some mail_player_is_cooldown
          else none
    ])
    else if typ =? system_mail
    then (if contains subtype m.mail_subtypes then none else some mail_subtype_unknown)
    else none

-- Whether a sender, if there is one, has so many of an item: sender.get_item(item_id) < item_num fails
abbrev can_attach : Option Sender → ℤ → ℤ → Bool
can_attach none id num = true
can_attach (some s) id num = not (get_item s.wallet id <? num)

-- The loop that attaches the items; `some` is the error at which it ends.
unfoldable pub attach_pairs : Option Sender → ℤ → List (ℤ × ℤ) → Mailbox → Mailbox × Option MailRet
attach_pairs sender mail_id [] b = (b, none)
attach_pairs sender mail_id ((id, num) ∷ l) b =
    if can_attach sender id num
    then (elim (attach_mail_item mail_id id num b).1 [
      | mail_success ↦ attach_pairs sender mail_id l (attach_mail_item mail_id id num b).0
      | failed ↦ ((attach_mail_item mail_id id num b).0, some failed)
    ])
    else (b, some mail_send_failed)

-- The sender pays for the items with add_resource.
abbrev sender_pays : Env → Slice → Option Sender → Option Sender
sender_pays e none sender = sender
sender_pays e (some items) none = none
sender_pays e (some items) (some s) =
    some (record s { wallet = cost_pairs e (pairs items) s.wallet })

abbrev attachments : Slice → List (ℤ × ℤ)
attachments none = []
attachments (some items) = pairs items

-- SetLastSendPlayerMailTime, of a mail between players
abbrev note_time : Env → ℤ → Option Sender → Dict Mailbox → Dict Mailbox
note_time e typ none boxes = boxes
note_time e typ (some s) boxes =
    if typ =? player_mail
    then (elim (lookup s.id boxes) [
      | none ↦ boxes
      | some b ↦ insert s.id (record b { last_send_player_mail_time = e.now }) boxes
    ])
    else boxes

-- RealSendMail; the receivers are the players that have a box.
unfoldable pub real_send_mail :
    Env
    → MailEnv
    → Option Sender
    → ℤ
    → ℤ
    → ℤ
    → String
    → String
    → Slice
    → ℤ
    → Dict Mailbox
    → Dict Mailbox × Option Sender × MailRet
real_send_mail e m sender receiver_id typ subtype title content items extra_value boxes =
    elim (check_sending e m sender typ subtype title content boxes) [
      | some failed ↦ (boxes, sender, failed)
      | none ↦ elim (lookup receiver_id boxes) [
        | none ↦ (boxes, sender, mail_receiver_not_found)
        | some box ↦
            let (b, mail_id) =
              new_mail e m typ subtype (id_of sender) (name_of sender) title content extra_value
                box in
            let (c, failed) = attach_pairs sender mail_id (attachments items) b in
            if mail_id ≤? pos 0
            then (insert receiver_id b boxes, sender, mail_send_failed)
            else (elim failed [
              | some code ↦ (insert receiver_id c boxes, sender, code)
              | none ↦ (
                note_time e typ sender (insert receiver_id (cache_new_mail mail_id c) boxes),
                sender_pays e items sender,
                mail_sent mail_id,
              )
            ])
      ]
    ]

-- Whether a result is negative.
abbrev is_error : MailRet → Bool
is_error mail_success = false
is_error mail_zero = false
is_error (mail_sent id) = false
is_error failed = true

-- The loop of SendMail over the members of a guild.
unfoldable pub send_to_members :
    Env
    → MailEnv
    → Option Sender
    → List ℤ
    → ℤ
    → ℤ
    → String
    → String
    → Slice
    → MailRet
    → Dict Mailbox
    → Dict Mailbox × Option Sender × MailRet
send_to_members e m sender [] typ subtype title content items ret boxes = (boxes, sender, ret)
send_to_members e m sender (id ∷ ids) typ subtype title content items ret boxes =
    let (after, s, code) =
      real_send_mail e m sender id typ subtype title content items (pos 0) boxes in
    let rest = send_to_members e m s ids typ subtype title content items code after in
    if is_error code then (after, s, code) else rest

-- The slice of attachments that SendMail makes.
abbrev pub flat : List (ℤ × ℤ) → List ℤ
flat [] = []
flat ((id, num) ∷ l) = id ∷ num ∷ flat l

-- SendMail, whose extra value is not passed on; attachments that are nil are an empty list.
unfoldable pub send_mail :
    Env
    → MailEnv
    → Option Sender
    → ℤ
    → ℤ
    → ℤ
    → String
    → String
    → List (ℤ × ℤ)
    → ℤ
    → Dict Mailbox
    → Dict Mailbox × Option Sender × MailRet
send_mail e m sender receiver_id typ subtype title content items extra_value boxes =
    if typ =? guild_mail
    then (elim sender [
      | none ↦ (boxes, none, mail_failure)
      | some s ↦ elim (m.guild_members s.id) [
        | none ↦ (boxes, some s, mail_send_failed)
        | some ids ↦
            if m.guild_position s.id ≤? guild_position_member
            then (boxes, some s, mail_send_failed)
            else send_to_members e m (some s) ids typ subtype title content (some (flat items))
                mail_zero boxes
      ]
    ])
    else real_send_mail e m sender receiver_id typ subtype title content (some (flat items)) (pos 0)
        boxes
