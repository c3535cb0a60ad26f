-- ===== src/Mail/System.antt =====
-- src/hall_server/player_mail.go: the mails to all players, which a player gets when it comes.
use ih_server.Base.{
  ℕ, zero, suc, ℤ, pos, pos_part, ◌+₃₂◌, ◌-ℤ◌, ◌<?◌, ◌≤?◌, List, Option, none, some, if◌then◌else◌,
  lookup, insert, Dict,
}
use ih_server.Player.Env.{Env}
use ih_server.Mail.{MailEnv, MailData, Mailbox, MailRet, mail_sent, change}
use ih_server.Mail.Send.{real_send_mail, system_mail}

-- dbSysMailRow: a mail to all players
pub record SysMail : Type 0 where
  pub table_id : ℤ
  pub send_time : ℤ
  pub item_list : List ℤ

-- SetSysMailSendTime, of the result of RealSendMail
abbrev set_sys_mail_send_time : MailRet → ℤ → Mailbox → Mailbox
set_sys_mail_send_time (mail_sent id) time b =
    change id (λ (x : MailData). record x { send_unix = time }) b
set_sys_mail_send_time failed time b = b

-- One mail of CheckSystemMail, for a player that was created at a time.
unfoldable pub send_system_mail :
    Env → MailEnv → (ℤ → Option SysMail) → ℤ → ℤ → ℤ → Dict Mailbox → Dict Mailbox
send_system_mail e m rows created player_id mail_id boxes = elim (rows mail_id) [
  | none ↦ boxes
  | some mail ↦
      if created ≤? mail.send_time
      then (let (after, s, code) =
            real_send_mail e m none player_id system_mail mail.table_id "" "" (some mail.item_list)
              (pos 0) boxes in
          elim (lookup player_id after) [
            | none ↦ after
            | some b ↦ insert player_id (set_sys_mail_send_time code mail.send_time b) after
          ])
      else boxes
]

-- The loop of CheckSystemMail, over so many ids from one on.
unfoldable pub send_system_mails :
    Env → MailEnv → (ℤ → Option SysMail) → ℤ → ℤ → ℕ → ℤ → Dict Mailbox → Dict Mailbox
send_system_mails e m rows created player_id zero mail_id boxes = boxes
send_system_mails e m rows created player_id (suc n) mail_id boxes =
    send_system_mails e m rows created player_id n (mail_id +₃₂ pos 1)
      (send_system_mail e m rows created player_id mail_id boxes)

-- SysMail.SetCurrId of a player
abbrev pub set_curr_id : ℤ → ℤ → Dict Mailbox → Dict Mailbox
set_curr_id player_id id boxes = elim (lookup player_id boxes) [
  | none ↦ boxes
  | some b ↦ insert player_id (record b { sys_mail_id = id }) boxes
]

-- CheckSystemMail; the id of the last mail to all players is `sys_mail_id`.
unfoldable pub check_system_mail :
    Env → MailEnv → (ℤ → Option SysMail) → ℤ → ℤ → ℤ → Dict Mailbox → Dict Mailbox
check_system_mail e m rows created sys_mail_id player_id boxes = elim (lookup player_id boxes) [
  | none ↦ boxes
  | some box ↦
      let n = suc (pos_part (sys_mail_id -ℤ box.sys_mail_id)) in
      let after = send_system_mails e m rows created player_id n box.sys_mail_id boxes in
      if box.sys_mail_id <? sys_mail_id then set_curr_id player_id sys_mail_id after else boxes
]
