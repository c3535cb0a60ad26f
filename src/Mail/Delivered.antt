-- ===== src/Mail/Delivered.antt =====
-- What a mail of the system is in the box of a player that has room.
use ih_server.Base.{
  ℕ, suc, ◌+◌, ◌≤◌, ℤ, pos, negsuc, pos_part, ◌≤ℤ◌, ◌<ℤ◌, ◌+₃₂◌, ◌+ℤ◌, wrap32, ◌≤?◌, =?-iff,
  =?-refl, List, [], ◌∷◌, ◌++◌, none, some, has_index, true, false, length, append_nil, append_one,
  lookup, insert, map, lookup-insert, Dict, ◌≡◌, ◌≢◌, refl, sym, ap, ◌∙◌, arith,
}
use ih_server.Player.Env.{Env}
use ih_server.Player.State.{pairs}
use ih_server.Mail.{
  MailData, Mailbox, MailEnv, MailRet, mail_success, make_room, unread_mail, new_mail,
  attach_mail_item, change,
}
use ih_server.Mail.Send.{attach_pairs, system_mail}
use ih_server.Mail.System.{SysMail}

-- A box that has room for so many mails, and no mail of an id that is still to be given.
pub record HasRoom (max n : ℕ) (curr_id : ℤ) (mails : Dict MailData) : Type 0 where
  pub room : length mails + n ≤ max
  pub free : (k : ℤ) → curr_id <ℤ k → lookup k mails ≡ none
  pub given : pos 0 ≤ℤ curr_id
  pub high : pos_part curr_id + n ≤ 2147483647

-- The mail under an id is a mail to all players: its kind, its time and its attachments.
pub record Delivered (id : ℤ) (mails : Dict MailData) (mail : SysMail) : Type 0 where
  pub found : MailData
  pub there : lookup id mails ≡ some found
  pub kind : found.subtype ≡ mail.table_id
  pub time : found.send_unix ≡ mail.send_time
  pub item_ids : found.attach_item_ids ≡ map (λ (i : ℤ × ℤ). i.0) (pairs mail.item_list)
  pub item_nums : found.attach_item_nums ≡ map (λ (i : ℤ × ℤ). i.1) (pairs mail.item_list)
  pub untaken : found.is_get_attached ≡ pos 0

-- The mail with more attachments.
abbrev pub with_items : List (ℤ × ℤ) → MailData → MailData
with_items [] d = d
with_items ((id, num) ∷ l) d = with_items l (record d {
  attach_item_ids = d.attach_item_ids ++ id ∷ [];
  attach_item_nums = d.attach_item_nums ++ num ∷ [];
})

-- `c` is `b` with another mail under an id.
pub record Changed (id : ℤ) (b c : Mailbox) (d : MailData) : Type 0 where
  pub there : lookup id c.mails ≡ some d
  pub others : (k : ℤ) → k ≢ id → lookup k c.mails ≡ lookup k b.mails
  pub length_same : length c.mails ≡ length b.mails
  pub rest : c ≡ record b { mails = c.mails }

length-insert_there :
    (k : ℤ) (d : MailData) (m : Dict MailData)
    → has_index k m ≡ true
    → length (insert k d m) ≡ length m
unfolding insert lookup
length-insert_there k d [] here = absurd (ground (arith, here))
length-insert_there k d ((j, x) ∷ m) here = ground (arith, here, length-insert_there k d m)

pub length-insert_new :
    (k : ℤ) (d : MailData) (m : Dict MailData)
    → lookup k m ≡ none
    → length (insert k d m) ≡ length m + 1
unfolding insert lookup
length-insert_new k d [] new = omega arith
length-insert_new k d ((j, x) ∷ m) new = ground (arith, new, length-insert_new k d m)

pub change-Changed :
    (id : ℤ) (f : MailData → MailData) (b : Mailbox) (d : MailData)
    → lookup id b.mails ≡ some d
    → Changed id b (change id f b) (f d)
change-Changed id f b d there =
    rw (change, there)
      (record {
        there = lookup-insert id id (f d) b.mails ∙ ground (arith, =?-refl id);
        others = λ k other. lookup-insert id k (f d) b.mails ∙ ground (arith, other, =?-iff id k);
        length_same = length-insert_there id (f d) b.mails (rw there refl);
        rest = refl;
      })

pub Changed-trans :
    {id : ℤ} {a b c : Mailbox} {d x : MailData}
    → Changed id a b x
    → Changed id b c d
    → Changed id a c d
Changed-trans {a = a} {c = c} f g = record {
  there = g.there;
  others = λ k other. g.others k other ∙ f.others k other;
  length_same = g.length_same ∙ f.length_same;
  rest = g.rest ∙ ap (λ (x : Mailbox). record x { mails = c.mails }) f.rest;
}

pub attach_pairs-Changed :
    (id : ℤ) (l : List (ℤ × ℤ)) (b : Mailbox) (d : MailData)
    → lookup id b.mails ≡ some d
    → ((attach_pairs none id l b).1 ≡ none)
      × Changed id b (attach_pairs none id l b).0 (with_items l d)
unfolding attach_pairs attach_mail_item
attach_pairs-Changed id [] b d there =
    (refl, record { there = there; others = λ k other. refl; length_same = refl; rest = refl })
attach_pairs-Changed id ((i, n) ∷ l) b d there =
    let f = λ (x : MailData). record x {
      attach_item_ids = x.attach_item_ids ++ i ∷ [];
      attach_item_nums = x.attach_item_nums ++ n ∷ [];
    } in
    let one = change-Changed id f b d there in
    let attached : attach_mail_item id i n b ≡ (change id f b, mail_success) =
      rw (attach_mail_item, there) refl in
    let code = ap (λ (x : Mailbox × MailRet). x.1) attached in
    let box = ap (λ (x : Mailbox × MailRet). x.0) attached in
    let (done, more) = attach_pairs-Changed id l (change id f b) (f d) one.there in
    rw (attach_pairs, code, box) (done, Changed-trans one more)

-- The attachments of the mail, and what of it stays.
pub record Extended (l : List (ℤ × ℤ)) (d x : MailData) : Type 0 where
  pub item_ids : x.attach_item_ids ≡ d.attach_item_ids ++ map (λ (i : ℤ × ℤ). i.0) l
  pub item_nums : x.attach_item_nums ≡ d.attach_item_nums ++ map (λ (i : ℤ × ℤ). i.1) l
  pub kind : x.subtype ≡ d.subtype
  pub untaken : x.is_get_attached ≡ d.is_get_attached

pub with_items-Extended : (l : List (ℤ × ℤ)) (d : MailData) → Extended l d (with_items l d)
with_items-Extended [] d = record {
  item_ids = sym (append_nil d.attach_item_ids);
  item_nums = sym (append_nil d.attach_item_nums);
  kind = refl;
  untaken = refl;
}
with_items-Extended ((id, num) ∷ l) d =
    let x = with_items-Extended l (record d {
      attach_item_ids = d.attach_item_ids ++ id ∷ [];
      attach_item_nums = d.attach_item_nums ++ num ∷ [];
    }) in
    record {
      item_ids = x.item_ids ∙ append_one d.attach_item_ids id (map (λ (i : ℤ × ℤ). i.0) l);
      item_nums = x.item_nums ∙ append_one d.attach_item_nums num (map (λ (i : ℤ × ℤ). i.1) l);
      kind = x.kind;
      untaken = x.untaken;
    }

module _ (e : Env) (m : MailEnv) (max n : ℕ) (is_max : m.mail_max_count ≡ pos max) where
  next_given :
      (a : ℤ) → pos 0 ≤ℤ a → pos_part a + suc n ≤ 2147483647 → a +₃₂ pos 1 ≡ pos (suc (pos_part a))
  unfolding ◌+₃₂◌ ◌+ℤ◌ wrap32
  next_given (pos a) low high = ground (arith, high)
  next_given (negsuc a) low high = absurd (omega (arith, low))

  -- new_mail where there is room
  pub roomy_mail :
      (kind : ℤ) (b : Mailbox)
      → HasRoom max (suc n) b.curr_id b.mails
      → let id = pos (suc (pos_part b.curr_id)) in
        new_mail e m system_mail kind (pos 0) "" "" "" (pos 0) b ≡ (
          record b {
            curr_id = id;
            mails = insert id (unread_mail e system_mail kind (pos 0) "" "" "" (pos 0) id) b.mails;
          },
          id,
        )
  unfolding new_mail make_room
  roomy_mail kind b h =
      let next = next_given b.curr_id h.given h.high in
      let above : b.curr_id <ℤ pos (suc (pos_part b.curr_id)) = omega (arith, h.given) in
      let new = h.free (pos (suc (pos_part b.curr_id))) above in
      let room : (pos max ≤? pos (length b.mails)) ≡ false = ground (arith, h.room) in
      rw (new_mail, next, make_room, is_max, room, new) refl
