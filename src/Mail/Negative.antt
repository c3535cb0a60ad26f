-- ===== src/Mail/Negative.antt =====
-- A mail whose attachment has a negative count.
use Prim.Native.String.{String}
use ih_server.Base.{
  ℕ, ◌+◌, ◌<◌, ℤ, pos, negsuc, neg32, ◌-₃₂◌, ◌-ℤ◌, wrap32, ◌<?◌, ◌≤?◌, ◌<ℤ◌, ◌≤ℤ◌, [], ◌∷◌, none,
  some, false, lookup, Dict, ◌≡◌, refl, ap, arith,
}
use ih_server.Player.Env.{Env}
use ih_server.Player.Resource.{get_item}
use ih_server.Player.Resource.ById.{add_resource, cost_pairs}
use ih_server.Mail.{MailData, Mailbox, MailEnv, mail_sent, new_mail, attach_mail_item}
use ih_server.Mail.Send.{
  Sender, check_sending, attach_pairs, real_send_mail, send_mail, player_mail,
}
use ih_server.Mail.Box.{InOrder, new_mail-InOrder}

-- A negative count of an item is attached to a mail that is there.
negative-attached :
    (s : Sender) (mail_id id : ℤ) (n : ℕ) (d : MailData) (b : Mailbox)
    → lookup mail_id b.mails ≡ some d
    → pos 0 ≤ℤ get_item s.wallet id
    → (attach_pairs (some s) mail_id ((id, negsuc n) ∷ []) b).1 ≡ none
unfolding attach_pairs attach_mail_item
negative-attached s mail_id id n d b there owns =
    let enough : (get_item s.wallet id <? negsuc n) ≡ false = ground (arith, owns) in
    rw (attach_pairs, enough, attach_mail_item, there) refl

paid : (n : ℕ) → n < 2147483647 → neg32 (negsuc n) ≡ pos (n + 1)
unfolding neg32 ◌-₃₂◌ ◌-ℤ◌ wrap32
paid n small = ground (arith, small)

-- A mail that passes its checks, to a player with a box in order, with a negative count of an item of
-- which the sender has no negative count itself: it is sent, and the sender is paid the count.
pub send_mail_negative :
    (e : Env) (m : MailEnv) (s : Sender) (receiver_id id : ℤ) (n max : ℕ) (title content : String)
    (box : Mailbox) (boxes : Dict Mailbox)
    → check_sending e m (some s) player_mail (pos 0) title content boxes ≡ none
    → lookup receiver_id boxes ≡ some box
    → 0 < max
    → m.mail_max_count ≡ pos max
    → InOrder max box
    → box.curr_id <ℤ pos 2147483647
    → pos 0 ≤ℤ get_item s.wallet id
    → n < 2147483647
    → let (after, sender, code) =
        send_mail e m
          (some s)
          receiver_id
          player_mail
          (pos 0)
          title
          content
          ((id, negsuc n) ∷ [])
          (pos 0)
          boxes in
      (sender ≡ some (record s { wallet = (add_resource e id (pos (n + 1)) s.wallet).0 }))
      × ((mail_id : ℤ) × (code ≡ mail_sent mail_id))
unfolding send_mail real_send_mail cost_pairs
send_mail_negative e m s receiver_id id n max title content box boxes passed there positive is_max h
      high owns small =
    let (b, mail_id) = new_mail e m player_mail (pos 0) s.id s.name title content (pos 0) box in
    let (order, is_id, (d, at_id, empty, no_nums, unread, untaken), others) =
      new_mail-InOrder e m player_mail (pos 0) s.id (pos 0) s.name title content max box positive
        is_max h high in
    let positive_id : (mail_id ≤? pos 0) ≡ false = ground (arith, is_id) in
    let attached = negative-attached s mail_id id n d b at_id owns in
    rw (send_mail, real_send_mail, passed, there, positive_id, attached)
      (
        ap (λ k. some (record s { wallet = (add_resource e id k s.wallet).0 })) (paid n small),
        (mail_id, refl),
      )
