-- ===== src/Mail/Unpaid.antt =====
-- A mail whose second attachment the sender cannot pay.
use Prim.Native.String.{String}
use ih_server.Base.{
  ℕ, ◌<◌, ℤ, pos, ◌<?◌, ◌≤?◌, ◌<ℤ◌, List, [], ◌∷◌, ◌++◌, Option, none, some, true, false, lookup,
  lookup-insert, =?-refl, Dict, ◌≡◌, refl, ap, ◌∙◌, arith,
}
use ih_server.Player.Env.{Env}
use ih_server.Player.Resource.{get_item}
use ih_server.Mail.{
  MailData, Mailbox, MailEnv, MailRet, mail_send_failed, mail_success, new_mail, attach_mail_item,
  change,
}
use ih_server.Mail.Send.{
  Sender, check_sending, attach_pairs, real_send_mail, send_mail, player_mail,
}
use ih_server.Mail.Box.{InOrder, new_mail-InOrder}

-- The mail with one more attachment.
abbrev with_item : ℤ → ℤ → MailData → MailData
with_item id num d = record d {
  attach_item_ids = d.attach_item_ids ++ id ∷ [];
  attach_item_nums = d.attach_item_nums ++ num ∷ [];
}

attach-second :
    (s : Sender) (mail_id a n c k : ℤ) (d : MailData) (b : Mailbox)
    → lookup mail_id b.mails ≡ some d
    → (get_item s.wallet a <? n) ≡ false
    → (get_item s.wallet c <? k) ≡ true
    → attach_pairs (some s) mail_id ((a, n) ∷ (c, k) ∷ []) b
      ≡ (change mail_id (with_item a n) b, some mail_send_failed)
unfolding attach_pairs attach_mail_item
attach-second s mail_id a n c k d b there first second =
    let attached : attach_mail_item mail_id a n b
        ≡ (change mail_id (with_item a n) b, mail_success) =
      rw (attach_mail_item, there) refl in
    let code = ap (λ (x : Mailbox × MailRet). x.1) attached in
    let box = ap (λ (x : Mailbox × MailRet). x.0) attached in
    rw (attach_pairs, first, code, box, second) refl

-- A mail that passes its checks, to a player with a box in order, with two attachments of which the
-- sender has enough of the first and too few of the second: it fails and costs the sender nothing, and
-- yet the receiver has the mail, with the first attachment and its count.
pub send_mail_unpaid :
    (e : Env) (m : MailEnv) (s : Sender) (receiver_id a n c k : ℤ) (max : ℕ)
    (title content : String) (box : Mailbox) (boxes : Dict Mailbox)
    → check_sending e m (some s) player_mail (pos 0) title content boxes ≡ none
    → lookup receiver_id boxes ≡ some box
    → 0 < max
    → m.mail_max_count ≡ pos max
    → InOrder max box
    → box.curr_id <ℤ pos 2147483647
    → (get_item s.wallet a <? n) ≡ false
    → (get_item s.wallet c <? k) ≡ true
    → let (after, sender, code) =
        send_mail e m
          (some s)
          receiver_id
          player_mail
          (pos 0)
          title
          content
          ((a, n) ∷ (c, k) ∷ [])
          (pos 0)
          boxes in
      (code ≡ mail_send_failed)
      × (sender ≡ some s)
      × ((b : Mailbox) × (mail_id : ℤ) × (d : MailData) × (lookup receiver_id after ≡ some b)
          × (lookup mail_id b.mails ≡ some d)
          × (d.attach_item_ids ≡ a ∷ [])
          × (d.attach_item_nums ≡ n ∷ []))
unfolding send_mail real_send_mail
send_mail_unpaid e m s receiver_id a n c k max title content box boxes passed there positive is_max
      h high first second =
    let (b, mail_id) = new_mail e m player_mail (pos 0) s.id s.name title content (pos 0) box in
    let (order, is_id, (d, at_id, empty, no_nums, unread, untaken), others) =
      new_mail-InOrder e m player_mail (pos 0) s.id (pos 0) s.name title content max box positive
        is_max h high in
    let positive_id : (mail_id ≤? pos 0) ≡ false = ground (arith, is_id) in
    let tried = attach-second s mail_id a n c k d b at_id first second in
    let left = ap (λ (x : Mailbox × Option MailRet). x.0) tried in
    let failed = ap (λ (x : Mailbox × Option MailRet). x.1) tried in
    let stored : lookup mail_id (change mail_id (with_item a n) b).mails ≡ some (with_item a n d) =
      rw (change, at_id)
        (lookup-insert mail_id mail_id (with_item a n d) b.mails
          ∙ ground (arith, =?-refl mail_id)) in
    rw (send_mail, real_send_mail, passed, there, positive_id, failed, left)
      (
        refl,
        refl,
        (
          change mail_id (with_item a n) b,
          mail_id,
          with_item a n d,
          lookup-insert receiver_id receiver_id (change mail_id (with_item a n) b) boxes
              ∙ ground (arith, =?-refl receiver_id),
          stored,
          ap (λ (l : List ℤ). l ++ a ∷ []) empty,
          ap (λ (l : List ℤ). l ++ n ∷ []) no_nums,
        ),
      )
