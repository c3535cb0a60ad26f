-- ===== src/ConnTimer/Nodes.antt =====
-- The nodes of timer lists, and the lists of slots.
use ih_server.Base.{
  ℕ, zero, suc, ◌<◌, =?-iff, List, [], ◌∷◌, ◌++◌, Option, Bool, true, false, ◌&&◌, ◌||◌, not,
  if◌then◌else◌, ◌==◌, length, set, get_elem?-set, ◌≡◌, ◌↔◌, refl, arith,
}
use ih_server.ConnTimer.{ConnTimer, same_timer, list_add, list_remove, list_at, slot}

pub same_timer_iff : (a b : ConnTimer) → (same_timer a b ≡ true) ↔ (a ≡ b)
same_timer_iff a b = ground (arith, =?-iff a.player_id b.player_id)

abbrev pub member : ConnTimer → List ConnTimer → Bool
member t [] = false
member t (u ∷ l) = same_timer u t || member t l

pub member-list_add :
    (t u : ConnTimer) (l : List ConnTimer)
    → member t (list_add u l) ≡ (member t l || same_timer u t)
member-list_add t u [] = ground arith
member-list_add t u (v ∷ l) = ground (arith, member-list_add t u l)

pub member-list_remove :
    (t u : ConnTimer) (l : List ConnTimer)
    → member t (list_remove u l) ≡ (member t l && not (same_timer u t))
unfolding list_remove
member-list_remove t u [] = refl
member-list_remove t u (v ∷ l) =
    ground
      (arith, member-list_remove t u l, same_timer_iff v u, same_timer_iff v t, same_timer_iff u t)

pub list_at-set :
    (store : List (List ConnTimer)) (l k : ℕ) (ts : List ConnTimer)
    → l < length store
    → list_at (set store l ts) k ≡ (if l == k then ts else list_at store k)
list_at-set store l k ts h = ground (arith, get_elem?-set store l k ts h)

pub list_at-append :
    (store : List (List ConnTimer)) (k : ℕ) → list_at (store ++ [] ∷ []) k ≡ list_at store k
list_at-append [] zero = refl
list_at-append [] (suc k) = refl
list_at-append (ts ∷ store) zero = refl
list_at-append (ts ∷ store) (suc k) = list_at-append store k

pub slot-set :
    (lists : List (Option ℕ)) (i j : ℕ) (o : Option ℕ)
    → i < length lists
    → slot (set lists i o) j ≡ (if i == j then o else slot lists j)
slot-set lists i j o h = ground (arith, get_elem?-set lists i j o h)
