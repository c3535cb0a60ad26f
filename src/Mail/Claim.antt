-- ===== src/Mail/Claim.antt =====
-- What a request for the attached items of a mail gives, also when it comes again.
use ih_server.Base.{
  ◌+ℤ◌, +ℤ_parts, ◌≤ℤ◌, max_int32, ◌+₃₂◌, insert, ℤ, pos, List, [], ◌∷◌, some, lookup,
  lookup-insert, =?-refl, Dict, ◌≡◌, refl, ap, ◌∙◌, arith,
}
use ih_server.Player.Env.{Env, ItemData}
use ih_server.Player.Resource.ById.{get_resource, add_resource, add_pairs}
use ih_server.Player.Resource.Price.{IsSpendable}
use ih_server.Player.Resource.Reward.{IsReward, Room, sum_of, sum_low, add_pairs_lem}
use ih_server.Player.State.{value_or_zero, Player}
use ih_server.Mail.{
  MailData, Mailbox, MailEnv, MailRet, mail_success, change, get_items_info_from, post,
  attached_items,
}
use ih_server.Mail.Handlers.{claim_items, claim_mails, get_mail_attached_items}

-- The mail with the flags that a request sets.
abbrev claimed : MailData → MailData
claimed d = record d { is_read = pos 1; is_get_attached = pos 1 }

lookup-change :
    (id : ℤ) (d : MailData) (b : Mailbox)
    → lookup id b.mails ≡ some d
    → lookup id (change id claimed b).mails ≡ some (claimed d)
lookup-change id d b there =
    rw (change, there) (lookup-insert id id (claimed d) b.mails ∙ ground (arith, =?-refl id))

module _ (e : Env) (m : MailEnv) (id : ℤ) (d : MailData) (i : ℤ × ℤ) (is : List (ℤ × ℤ))
    (attached : get_items_info_from d.attach_item_ids d.attach_item_nums ≡ i ∷ is) where
  one_mail :
      (p : Player) (b : Mailbox)
      → lookup id b.mails ≡ some d
      → claim_mails e m (id ∷ []) p b [] ≡ (
        (claim_items e m (i ∷ is) (p, [])).0,
        change id claimed b,
        (claim_items e m (i ∷ is) (p, [])).1,
        mail_success,
      )
  unfolding claim_mails
  one_mail p b there = rw (claim_mails, there, attached) refl

  -- A request for one mail that is there with attachments, whatever its flags.
  request :
      (p : Player) (b : Mailbox)
      → lookup id b.mails ≡ some d
      → get_mail_attached_items e m (some (id ∷ [])) p b ≡ (
        (claim_items e m (i ∷ is) (p, [])).0,
        post (attached_items (id ∷ []) (claim_items e m (i ∷ is) (p, [])).1) (change id claimed b),
        mail_success,
      )
  unfolding get_mail_attached_items
  request p b there =
      let one = one_mail p b there in
      let at_0 = ap (λ (x : Player × Mailbox × Dict ℤ × MailRet). x.0) one in
      let at_1 = ap (λ (x : Player × Mailbox × Dict ℤ × MailRet). x.1) one in
      let at_2 = ap (λ (x : Player × Mailbox × Dict ℤ × MailRet). x.2) one in
      let at_3 = ap (λ (x : Player × Mailbox × Dict ℤ × MailRet). x.3) one in
      rw (get_mail_attached_items, at_3, at_0, at_1, at_2) refl

-- Each id has a row in the table of items.
abbrev pub Listed : Env → List (ℤ × ℤ) → Type 0
Listed e [] = Unit {0}
Listed e ((id, n) ∷ l) = ((item : ItemData) × (e.item_table id ≡ some item)) × Listed e l

claim_items-add_pairs :
    (e : Env) (m : MailEnv) (l : List (ℤ × ℤ)) (p : Player) (report : Dict ℤ)
    → Listed e l
    → (claim_items e m l (p, report)).0 ≡ add_pairs e l p
unfolding claim_items add_pairs
claim_items-add_pairs e m [] p report h = refl
claim_items-add_pairs e m ((id, n) ∷ l) p report ((item, row), h) =
    rw (claim_items, row, add_pairs)
      (claim_items-add_pairs e m l (add_resource e id n p).0
        (insert id (value_or_zero (lookup id report) +₃₂ n) report) h)

-- There is room for a reward twice.
abbrev pub RoomTwice : List (ℤ × ℤ) → Player → Type 0
RoomTwice l p =
    (j : ℤ)
    → IsSpendable j
    → (pos 0 ≤ℤ get_resource p j) × (get_resource p j +ℤ sum_of j l +ℤ sum_of j l ≤ℤ max_int32)

RoomTwice-Room : (e : Env) (l : List (ℤ × ℤ)) (p : Player) → IsReward e l → RoomTwice l p → Room l p
RoomTwice-Room e l p reward room j s =
    let (low, high) = room j s in
    let up = sum_low e j l reward in
    let once = get_resource p j +ℤ sum_of j l in
    (low, omega (arith, high, up, +ℤ_parts once (sum_of j l)))

room_rest :
    (e : Env) (l : List (ℤ × ℤ)) (p : Player)
    → IsReward e l
    → RoomTwice l p
    → (j : ℤ) → IsSpendable j
    → (pos 0 ≤ℤ get_resource p j +ℤ sum_of j l)
      × (get_resource p j +ℤ sum_of j l +ℤ sum_of j l ≤ℤ max_int32)
room_rest e l p reward room j s =
    let (low, high) = room j s in
    (omega (arith, low, sum_low e j l reward, +ℤ_parts (get_resource p j) (sum_of j l)), high)

-- A request for the attached items of one mail that is there and has some gives them all and marks
-- the mail as taken; and the same request again gives them all again: every resource but experience
-- rises by the sum of its counts each time. The counts are positive, each of gold, diamonds, experience,
-- or an item that is neither an avatar nor honor, all with rows in the table of items; the resources but
-- experience are not negative before, and with all that is given not above MaxInt32.
pub get_mail_attached_items_again :
    (e : Env) (m : MailEnv) (id : ℤ) (d : MailData) (i : ℤ × ℤ) (is : List (ℤ × ℤ)) (p : Player)
    (b : Mailbox)
    → get_items_info_from d.attach_item_ids d.attach_item_nums ≡ i ∷ is
    → lookup id b.mails ≡ some d
    → Listed e (i ∷ is)
    → IsReward e (i ∷ is)
    → RoomTwice (i ∷ is) p
    → let (q, c, first) = get_mail_attached_items e m (some (id ∷ [])) p b in
      let (r, f, second) = get_mail_attached_items e m (some (id ∷ [])) q c in
      (first ≡ mail_success)
      × ((j : ℤ) → IsSpendable j → get_resource q j ≡ get_resource p j +ℤ sum_of j (i ∷ is))
      × ((t : MailData) × (lookup id c.mails ≡ some t) × (t.is_get_attached ≡ pos 1))
      × (second ≡ mail_success)
      × ((j : ℤ)
          → IsSpendable j
          → get_resource r j ≡ get_resource p j +ℤ sum_of j (i ∷ is) +ℤ sum_of j (i ∷ is))
get_mail_attached_items_again e m id d i is p b attached there listed reward room =
    let l = i ∷ is in
    let first = request e m id d i is attached p b there in
    let c = change id claimed b in
    let still = lookup-change id d b there in
    let q = (claim_items e m l (p, [])).0 in
    let again =
      request e m id (claimed d) i is attached q
        (post (attached_items (id ∷ []) (claim_items e m l (p, [])).1) c) still in
    let once : (j : ℤ) → IsSpendable j → get_resource q j ≡ get_resource p j +ℤ sum_of j l = λ j s.
      ap (λ x. get_resource x j) (claim_items-add_pairs e m l p [] listed)
      ∙ add_pairs_lem e l p reward (RoomTwice-Room e l p reward room) j s in
    let room_left : Room l q = λ j s. rw (once j s) (room_rest e l p reward room j s) in
    let twice : (j : ℤ)
        → IsSpendable j
        → get_resource (claim_items e m l (q, [])).0 j
          ≡ get_resource p j +ℤ sum_of j l +ℤ sum_of j l =
      λ j s.
        ap (λ x. get_resource x j) (claim_items-add_pairs e m l q [] listed)
        ∙ add_pairs_lem e l q reward room_left j s
        ∙ ap (λ x. x +ℤ sum_of j l) (once j s) in
    rw (first, again) (refl, once, (claimed d, still, refl), refl, twice)
