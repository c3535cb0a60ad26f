-- ===== src/Mail/Resent.antt =====
-- What a check for mails to all players sends, when it comes again.
use ih_server.Base.{
  ℕ, suc, ◌+◌, ◌<◌, ℤ, pos, pos_part, ◌+₃₂◌, ◌+ℤ◌, ◌-ℤ◌, wrap32, ◌<?◌, ◌≤ℤ◌, =?-refl, Option, none,
  some, true, lookup, Dict, lookup-insert, ◌≡◌, refl, ap, sym, ◌∙◌, arith,
}
use ih_server.Player.Env.{Env}
use ih_server.Mail.{MailData, Mailbox, MailEnv}
use ih_server.Mail.Send.{check_sending, system_mail}
use ih_server.Mail.System.{
  SysMail, send_system_mail, send_system_mails, set_curr_id, check_system_mail,
}
use ih_server.Mail.Delivered.{HasRoom, Delivered}
use ih_server.Mail.OneMore.{one_sent, sent-OneMore, timed}

module _ (e : Env) (m : MailEnv) (rows : ℤ → Option SysMail) (created player_id : ℤ) where
  not_sent :
      (mail_id : ℤ) (boxes : Dict Mailbox)
      → rows mail_id ≡ none
      → send_system_mail e m rows created player_id mail_id boxes ≡ boxes
  unfolding send_system_mail
  not_sent mail_id boxes missing = rw (send_system_mail, missing) refl

  next_id : (n : ℕ) → n < 2147483647 → pos n +₃₂ pos 1 ≡ pos (suc n)
  unfolding ◌+₃₂◌ ◌+ℤ◌ wrap32
  next_id n small = ground (arith, small)

  one_more : (n : ℕ) → pos_part (pos (suc n) -ℤ pos n) ≡ 1
  unfolding ◌-ℤ◌
  one_more n = ground arith

  -- A check that finds one more id sends the mail of the last id that the player has, and that of the
  -- new one.
  two_sent :
      (a : ℕ) (box : Mailbox) (boxes : Dict Mailbox)
      → lookup player_id boxes ≡ some box
      → box.sys_mail_id ≡ pos a
      → a < 2147483647
      → let first = send_system_mail e m rows created player_id (pos a) boxes in
        check_system_mail e m rows created (pos (suc a)) player_id boxes
        ≡ set_curr_id player_id
            (pos (suc a))
            (send_system_mail e m rows created player_id (pos (suc a)) first)
  unfolding check_system_mail send_system_mails
  two_sent a box boxes there is_a small =
      let due : (box.sys_mail_id <? pos (suc a)) ≡ true = rw is_a (ground arith) in
      let many : pos_part (pos (suc a) -ℤ box.sys_mail_id) ≡ 1 = rw is_a (one_more a) in
      rw (check_system_mail, there, due, many, is_a, next_id a small) refl

  noted :
      (id : ℤ) (b : Mailbox) (boxes : Dict Mailbox)
      → lookup player_id boxes ≡ some b
      → lookup player_id (set_curr_id player_id id boxes) ≡ some (record b { sys_mail_id = id })
  noted id b boxes there =
      rw (set_curr_id, there)
        (lookup-insert player_id player_id (record b { sys_mail_id = id }) boxes
          ∙ ground (arith, =?-refl player_id))

moved :
    {id : ℤ} {old new : Dict MailData} {mail : SysMail}
    → Delivered id old mail
    → lookup id new ≡ lookup id old
    → Delivered id new mail
moved f same = record {
  found = f.found;
  there = same ∙ f.there;
  kind = f.kind;
  time = f.time;
  item_ids = f.item_ids;
  item_nums = f.item_nums;
  untaken = f.untaken;
}

at_id :
    {i j : ℤ} {mails : Dict MailData} {mail : SysMail}
    → i ≡ j
    → Delivered i mails mail
    → Delivered j mails mail
at_id same f = rw (sym same) f

-- A mail to all players, with no other before or after it, that is not older than the player, whose box
-- is at the id before it, knows no mail of an id to come, and has room for two mails: the check that
-- finds the mail delivers it, with its kind, time and attachments; and the check that finds the next
-- id, under which there is no mail, delivers the same mail a second time, so that the player has
-- it twice and can take its attachments from both. The mail passes the checks of RealSendMail, and ids
-- stay below MaxInt32.
pub check_system_mail_again :
    (e : Env) (m : MailEnv) (rows : ℤ → Option SysMail) (created player_id : ℤ) (max a : ℕ)
    (mail : SysMail) (box : Mailbox) (boxes : Dict Mailbox)
    → lookup player_id boxes ≡ some box
    → box.sys_mail_id ≡ pos a
    → a + 1 < 2147483647
    → rows (pos a) ≡ none
    → rows (pos (suc a)) ≡ some mail
    → rows (pos (suc (suc a))) ≡ none
    → created ≤ℤ mail.send_time
    → ((bs : Dict Mailbox) → check_sending e m none system_mail mail.table_id "" "" bs ≡ none)
    → m.mail_max_count ≡ pos max
    → HasRoom max 2 box.curr_id box.mails
    → let once = check_system_mail e m rows created (pos (suc a)) player_id boxes in
      let twice = check_system_mail e m rows created (pos (suc (suc a))) player_id once in
      let i = pos (suc (pos_part box.curr_id)) in
      let j = pos (suc (suc (pos_part box.curr_id))) in
      (b : Mailbox) × (c : Mailbox) × (lookup player_id once ≡ some b)
      × (lookup player_id twice ≡ some c)
      × Delivered i b.mails mail
      × (lookup j b.mails ≡ none)
      × Delivered i c.mails mail
      × Delivered j c.mails mail
check_system_mail_again e m rows created player_id max a mail box boxes there is_a small before row
      after late passed is_max room =
    let start = send_system_mail e m rows created player_id (pos a) boxes in
    let b = timed e m max 1 is_max mail box room in
    let first = sent-OneMore e m max 1 is_max mail box room in
    let ready : lookup player_id start ≡ some box =
      ap (lookup player_id) (not_sent e m rows created player_id (pos a) boxes before) ∙ there in
    let sent = send_system_mail e m rows created player_id (pos (suc a)) start in
    let sent_b : lookup player_id sent ≡ some b =
      one_sent e m max 1 is_max mail box room rows created player_id (pos (suc a)) start row late
        (passed start) ready in
    let d = record b { sys_mail_id = pos (suc a) } in
    let once = check_system_mail e m rows created (pos (suc a)) player_id boxes in
    let once_d : lookup player_id once ≡ some d =
      ap (lookup player_id)
        (two_sent e m rows created player_id a box boxes there is_a (omega (arith, small)))
      ∙ noted e m rows created player_id (pos (suc a)) b sent sent_b in
    let c = timed e m max 0 is_max mail d first.has_room in
    let second = sent-OneMore e m max 0 is_max mail d first.has_room in
    let again = send_system_mail e m rows created player_id (pos (suc a)) once in
    let again_c : lookup player_id again ≡ some c =
      one_sent e m max 0 is_max mail d first.has_room rows created player_id (pos (suc a)) once row
        late (passed once) once_d in
    let last = send_system_mail e m rows created player_id (pos (suc (suc a))) again in
    let last_c : lookup player_id last ≡ some c =
      ap (lookup player_id) (not_sent e m rows created player_id (pos (suc (suc a))) again after)
      ∙ again_c in
    let twice_c =
      ap (lookup player_id)
        (two_sent e m rows created player_id (suc a) d once once_d refl (omega (arith, small)))
      ∙ noted e m rows created player_id (pos (suc (suc a))) c last last_c in
    let j = pos (suc (suc (pos_part box.curr_id))) in
    let is_j : pos (suc (pos_part b.curr_id)) ≡ j = ap (λ x. pos (suc (pos_part x))) first.curr in
    let still : lookup (pos (suc (pos_part box.curr_id))) c.mails
        ≡ lookup (pos (suc (pos_part box.curr_id))) b.mails =
      second.others (pos (suc (pos_part box.curr_id)))
        (λ same. absurd (ground (arith, same, is_j))) in
    (
      d,
      record c { sys_mail_id = pos (suc (suc a)) },
      once_d,
      twice_c,
      first.delivered,
      first.has_room.free j (rw first.curr (omega arith)),
      moved first.delivered still,
      at_id is_j second.delivered,
    )
