-- ===== src/Mail/Box.antt =====
-- A mail box stays within its number of mails, and a new mail replaces the oldest at most.
use Prim.Native.String.{String}
use ih_server.Base.{
  ℕ, suc, ◌+◌, ◌<◌, ◌≤◌, ℤ, pos, pos_part, ◌≤ℤ◌, ◌<ℤ◌, ◌+₃₂◌, ◌+ℤ◌, wrap32, ◌<?◌, ◌≤?◌, ◌=?◌,
  =?-iff, =?-refl, [], none, some, has_index, Bool-cases, inl, inr, ◌⊎◌, true, false, length,
  lookup, insert, lookup-insert, lookup-delete, Dict, ◌≡◌, ◌≢◌, refl, ◌∙◌, arith,
}
use ih_server.Player.Env.{Env}
use ih_server.Mail.{
  MailData, Mailbox, MailEnv, first_index, all_index, make_room, unread_mail, new_mail,
}
use ih_server.Mail.Oldest.{
  Within, insert-Within, delete-Within, Within-weaker, Within-bound, length-insert,
  length-delete_there, first_index-First,
}

-- A mail box in order: the ids are positive and those given so far, and there are no more mails than
-- the maximum.
pub record InOrder (max : ℕ) (b : Mailbox) : Type 0 where
  pub count : length b.mails ≤ max
  pub ids : Within b.curr_id b.mails
  pub given : pos 0 ≤ℤ b.curr_id

-- What is left to make room: all mails where there is room, and else all but the one of the least id.
record Room (max : ℕ) (m r : Dict MailData) : Type 0 where
  less : length r + 1 ≤ max
  rest :
      (k : ℤ)
      → (lookup k r ≡ lookup k m)
        ⊎ (max ≤ length m × ((j : ℤ) → has_index j m ≡ true → k ≤ℤ j) × (lookup k r ≡ none))

make_room-Room :
    (max : ℕ) (c : ℤ) (m : Dict MailData)
    → 0 < max
    → length m ≤ max
    → Within c m
    → Room max m (make_room (pos max) m) × Within c (make_room (pos max) m)
unfolding make_room
make_room-Room max c m positive le h = elim (Bool-cases (pos max ≤? pos (length m))) [
  | inr room ↦
      rw (make_room, room) (record { less = ground (arith, room); rest = λ k. inl refl }, h)
  | inl full ↦
      let r = first_index (all_index m) (pos 0) in
      let f = first_index-First c m (pos 0) h (omega arith) in
      let up : pos 0 <ℤ r = f.some_found (inl (ground (arith, full, positive))) in
      let there : has_index r m ≡ true = elim f.found [
        | inl is_zero ↦ absurd (ground (arith, is_zero, up))
        | inr is_in ↦ is_in
      ] in
      let found : (pos 0 <? r) ≡ true = ground (arith, up) in
      rw (make_room, full, found)
        (
          record {
            less = omega (arith, length-delete_there r m there, le);
            rest = λ k. elim (Bool-cases (r =? k)) [
              | inr other ↦ inl (lookup-delete r k m ∙ ground (arith, other))
              | inl same ↦
                  let is_k : r ≡ k = ground (arith, same, =?-iff r k) in
                  inr (
                    ground (arith, full),
                    λ j here. rw (← is_k) (f.least j here),
                    lookup-delete r k m ∙ ground (arith, same),
                  )
            ];
          },
          delete-Within c r m h,
        )
]

module _ (e : Env) (m : MailEnv) (typ subtype sender_id extra : ℤ)
    (sender_name title content : String) (max : ℕ) (b : Mailbox) where
  abbrev result : Mailbox × ℤ
  result = new_mail e m typ subtype sender_id sender_name title content extra b

  -- The id that the mail takes is new.
  fresh_id :
      pos 0 ≤ℤ b.curr_id
      → b.curr_id <ℤ pos 2147483647
      → b.curr_id +₃₂ pos 1 ≡ pos (suc (pos_part b.curr_id))
  unfolding ◌+₃₂◌ ◌+ℤ◌ wrap32
  fresh_id low high = ground (arith, low, high)

  -- A new mail in a box in order, of a positive maximum of mails, whose last id is below MaxInt32: the
  -- box stays in order, within its maximum; the mail is there under the next id, without
  -- attachments and unread; and every other mail is as it was, but for the one of the least id, which
  -- goes where the box was full.
  pub new_mail-InOrder :
      0 < max
      → m.mail_max_count ≡ pos max
      → InOrder max b
      → b.curr_id <ℤ pos 2147483647
      → let (q, id) = result in
        InOrder max q
        × (id ≡ pos (suc (pos_part b.curr_id)))
        × ((d : MailData) × (lookup id q.mails ≡ some d)
            × (d.attach_item_ids ≡ [])
            × (d.attach_item_nums ≡ [])
            × (d.is_read ≡ pos 0)
            × (d.is_get_attached ≡ pos 0))
        × ((k : ℤ)
            → k ≢ id
            → (lookup k q.mails ≡ lookup k b.mails)
              ⊎ (max ≤ length b.mails
                  × ((j : ℤ) → has_index j b.mails ≡ true → k ≤ℤ j)
                  × (lookup k q.mails ≡ none)))
  unfolding new_mail
  new_mail-InOrder positive is_max h high =
      let next = fresh_id h.given high in
      let id = b.curr_id +₃₂ pos 1 in
      let (r, within) = make_room-Room max b.curr_id b.mails positive h.count h.ids in
      let room = make_room (pos max) b.mails in
      let new : has_index id room ≡ false = elim (Bool-cases (has_index id room)) [
        | inr no_mail ↦ no_mail
        | inl there ↦
            let (low, top) = Within-bound b.curr_id id room within there in
            absurd (ground (arith, top, next, h.given))
      ] in
      let d = unread_mail e typ subtype sender_id sender_name title content extra id in
      let up : pos 0 <ℤ id = ground (arith, next) in
      let above : b.curr_id ≤ℤ id = ground (arith, next, h.given) in
      rw (is_max, new)
        (
          record {
            count = omega (arith, length-insert id d room, r.less);
            ids =
                insert-Within id id d room up (omega arith)
                  (Within-weaker b.curr_id id room above within);
            given = omega (arith, up);
          },
          next,
          (d, lookup-insert id id d room ∙ ground (arith, =?-refl id), refl, refl, refl, refl),
          λ k other.
              let same : lookup k (insert id d room) ≡ lookup k room =
                lookup-insert id k d room ∙ ground (arith, other, =?-iff id k) in
              elim (r.rest k) [
                | inl kept ↦ inl (same ∙ kept)
                | inr (full, least, gone) ↦ inr (full, least, same ∙ gone)
              ],
        )
