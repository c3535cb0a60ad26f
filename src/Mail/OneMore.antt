-- ===== src/Mail/OneMore.antt =====
-- A mail to all players, as a check for such mails sends it.
use ih_server.Base.{
  ℕ, suc, ◌+◌, ℤ, pos, pos_part, ◌≤?◌, ◌≤ℤ◌, ◌<ℤ◌, =?-iff, =?-refl, Option, none, some, true, false,
  lookup, insert, Dict, length, lookup-insert, ◌≡◌, ◌≢◌, refl, ap, ◌∙◌, arith,
}
use ih_server.Player.Env.{Env}
use ih_server.Player.State.{pairs}
use ih_server.Mail.{
  MailData, Mailbox, MailEnv, MailRet, unread_mail, cache_new_mail, change, mail_sent,
}
use ih_server.Mail.Send.{Sender, check_sending, attach_pairs, real_send_mail, system_mail}
use ih_server.Mail.System.{SysMail, send_system_mail}
use ih_server.Mail.Delivered.{
  HasRoom, Delivered, with_items, length-insert_new, change-Changed, attach_pairs-Changed,
  with_items-Extended, roomy_mail,
}

-- `b` is the box after one more mail to all players.
pub record OneMore (max n : ℕ) (box b : Mailbox) (mail : SysMail) : Type 0 where
  pub delivered : Delivered (pos (suc (pos_part box.curr_id))) b.mails mail
  pub has_room : HasRoom max n b.curr_id b.mails
  pub curr : b.curr_id ≡ pos (suc (pos_part box.curr_id))
  pub others :
      (k : ℤ) → k ≢ pos (suc (pos_part box.curr_id)) → lookup k b.mails ≡ lookup k box.mails

module _ (e : Env) (m : MailEnv) (max n : ℕ) (is_max : m.mail_max_count ≡ pos max) (mail : SysMail)
    (box : Mailbox) (h : HasRoom max (suc n) box.curr_id box.mails) where
  abbrev id : ℤ
  id = pos (suc (pos_part box.curr_id))

  abbrev fresh : MailData
  fresh = unread_mail e system_mail mail.table_id (pos 0) "" "" "" (pos 0) id

  abbrev made : Mailbox
  made = record box { curr_id = id; mails = insert id fresh box.mails }

  abbrev full : Mailbox
  full = (attach_pairs none id (pairs mail.item_list) made).0

  abbrev pub timed : Mailbox
  timed =
      change id (λ (x : MailData). record x { send_unix = mail.send_time }) (cache_new_mail id full)

  pub sent-OneMore : OneMore max n box timed mail
  unfolding cache_new_mail
  sent-OneMore =
      let d = with_items (pairs mail.item_list) fresh in
      let at : lookup id made.mails ≡ some fresh =
        lookup-insert id id fresh box.mails ∙ ground (arith, =?-refl id) in
      let (done, c) = attach_pairs-Changed id (pairs mail.item_list) made fresh at in
      let f = λ (x : MailData). record x { send_unix = mail.send_time } in
      let t = change-Changed id f (cache_new_mail id full) d c.there in
      let x = with_items-Extended (pairs mail.item_list) fresh in
      let above : box.curr_id <ℤ id = omega (arith, h.given) in
      let new = h.free id above in
      let others : (k : ℤ) → k ≢ id → lookup k timed.mails ≡ lookup k box.mails = λ k other.
        t.others k other
        ∙ c.others k other
        ∙ lookup-insert id k fresh box.mails
        ∙ ground (arith, other, =?-iff id k) in
      let curr : timed.curr_id ≡ id =
        ap (λ (y : Mailbox). y.curr_id) t.rest ∙ ap (λ (y : Mailbox). y.curr_id) c.rest in
      let size : length timed.mails ≡ length box.mails + 1 =
        t.length_same ∙ c.length_same ∙ length-insert_new id fresh box.mails new in
      record {
        delivered = record {
          found = f d;
          there = t.there;
          kind = x.kind;
          time = refl;
          item_ids = x.item_ids;
          item_nums = x.item_nums;
          untaken = x.untaken;
        };
        has_room = record {
          room = omega (arith, size, h.room);
          free = λ k over.
              let past : id <ℤ k = rw curr at over in
              let other : k ≢ id = λ same. absurd (ground (arith, past, same)) in
              others k other ∙ h.free k (omega (arith, above, past));
          given = rw curr (omega arith);
          high = rw curr (omega (arith, h.high));
        };
        curr = curr;
        others = others;
      }

  module _ (rows : ℤ → Option SysMail) (created player_id mail_id : ℤ) (boxes : Dict Mailbox)
      (row : rows mail_id ≡ some mail) (late : created ≤ℤ mail.send_time)
      (passed : check_sending e m none system_mail mail.table_id "" "" boxes ≡ none)
      (there : lookup player_id boxes ≡ some box) where
    pub mailed :
        real_send_mail e m none player_id system_mail mail.table_id "" ""
          (some mail.item_list)
          (pos 0)
          boxes
        ≡ (insert player_id (cache_new_mail id full) boxes, none, mail_sent id)
    unfolding real_send_mail
    mailed =
        let fits = roomy_mail e m max n is_max mail.table_id box h in
        let is_made = ap (λ (x : Mailbox × ℤ). x.0) fits in
        let is_id = ap (λ (x : Mailbox × ℤ). x.1) fits in
        let at : lookup id made.mails ≡ some fresh =
          lookup-insert id id fresh box.mails ∙ ground (arith, =?-refl id) in
        let (done, c) = attach_pairs-Changed id (pairs mail.item_list) made fresh at in
        let positive : (id ≤? pos 0) ≡ false = ground arith in
        rw (real_send_mail, passed, there, is_made, is_id, positive, done, is_made, is_id) refl

    pub one_sent :
        lookup player_id (send_system_mail e m rows created player_id mail_id boxes) ≡ some timed
    unfolding send_system_mail
    one_sent =
        let due : (created ≤? mail.send_time) ≡ true = ground (arith, late) in
        let after = ap (λ (x : Dict Mailbox × Option Sender × MailRet). x.0) mailed in
        let code = ap (λ (x : Dict Mailbox × Option Sender × MailRet). x.2) mailed in
        let found : lookup player_id (insert player_id (cache_new_mail id full) boxes)
            ≡ some (cache_new_mail id full) =
          lookup-insert player_id player_id (cache_new_mail id full) boxes
          ∙ ground (arith, =?-refl player_id) in
        rw (send_system_mail, row, due, after, found, code, after)
          (lookup-insert player_id player_id timed (insert player_id (cache_new_mail id full) boxes)
            ∙ ground (arith, =?-refl player_id))
