-- ===== src/ConnTimer.antt =====
-- src/hall_server/conn_timer_wheel.go, and the timer lists of src/hall_server/conn_timer_mgr.go: a
-- player whose client has been silent for the heartbeat interval is logged out. One goroutine runs
-- the wheel; Insert and Remove reach it through a channel, as operations in order.
pub mod Nodes
pub mod Inv
pub mod Insert
pub mod Expire
pub mod Visit
pub mod Sweep
pub mod Ahead
pub mod Tick
pub mod Silence
pub mod Rounds
pub mod Logout
use ih_server.Base.{
  ℕ, zero, suc, ◌+◌, ◌*◌, ℤ, pos, negsuc, pos_part, ◌+₃₂◌, ◌-₃₂◌, rem, ◌<?◌, ◌≤?◌, ◌=?◌, List, [],
  ◌∷◌, ◌++◌, Option, none, some, Bool, true, false, ◌&&◌, if◌then◌else◌, ◌==◌, length, get_elem?,
  set, replicate, lookup, insert, delete, Dict,
}

-- ConnTimer: a node, by a number that stands for its address, and its player. The links of a node are
-- its place in a list.
pub record ConnTimer : Type 0 where
  pub address : ℕ
  pub player_id : ℤ

-- Equality of two pointers to nodes.
abbrev pub same_timer : ConnTimer → ConnTimer → Bool
same_timer a b = (a.address == b.address) && (a.player_id =? b.player_id)

-- ConnTimerList.add, of a node that is made
abbrev pub list_add : ConnTimer → List ConnTimer → List ConnTimer
list_add t l = l ++ t ∷ []

-- ConnTimerList.remove
unfoldable pub list_remove : ConnTimer → List ConnTimer → List ConnTimer
list_remove t [] = []
list_remove t (u ∷ l) = let rest = list_remove t l in if same_timer u t then rest else u ∷ rest

-- ConnTimerPlayer; a list is an index of the store below.
pub record ConnTimerPlayer : Type 0 where
  pub player_id : ℤ
  pub timer_list : ℕ
  pub timer : ConnTimer

-- ConnTimerWheel, with the timer lists that were made in `store`, and the number of nodes made.
pub record ConnTimerWheel : Type 0 where
  pub timer_lists : List (Option ℕ)
  pub curr_timer_index : ℤ
  pub last_check_time : ℤ
  pub last_players_num : ℤ
  pub players : Dict ConnTimerPlayer
  pub store : List (List ConnTimer)
  pub nodes : ℕ

-- The nodes of a list of the store.
abbrev pub list_at : List (List ConnTimer) → ℕ → List ConnTimer
list_at store l = elim (get_elem? store l) [ none ↦ [] | some ts ↦ ts ]

-- An element of timer_lists: the list, or nil.
abbrev pub slot : List (Option ℕ) → ℕ → Option ℕ
slot lists i = elim (get_elem? lists i) [ none ↦ none | some o ↦ o ]

-- Init, for a heartbeat interval that is positive
unfoldable pub init : ℕ → ConnTimerWheel
init heartbeat = record {
  timer_lists = replicate (heartbeat * 3) none;
  curr_timer_index = negsuc 0;
  last_check_time = pos 0;
  last_players_num = pos 0;
  players = [];
  store = [];
  nodes = 0;
}

-- (curr_timer_index + n) % lists_len
unfoldable pub index_ahead : ConnTimerWheel → ℤ → ℕ
index_ahead w n = pos_part (rem (w.curr_timer_index +₃₂ n) (length w.timer_lists))

-- _remove
unfoldable pub remove_player : ConnTimerPlayer → ConnTimerWheel → ConnTimerWheel
remove_player p w = record w {
  store = set w.store p.timer_list (list_remove p.timer (list_at w.store p.timer_list));
  players = delete p.player_id w.players;
}

-- remove
unfoldable pub remove : ℤ → ConnTimerWheel → ConnTimerWheel × Bool
remove player_id w = elim (lookup player_id w.players) [
  | none ↦ (w, false)
  | some p ↦ (remove_player p w, true)
]

-- The list of a slot, which is made where there is none.
unfoldable pub list_of : ℕ → ConnTimerWheel → ConnTimerWheel × ℕ
list_of i w = elim (slot w.timer_lists i) [
  | none ↦ (
    record w {
      timer_lists = set w.timer_lists i (some (length w.store));
      store = w.store ++ [] ∷ [];
    },
    length w.store,
  )
  | some l ↦ (w, l)
]

-- insert, of the timer of a player that has none, in the list of a slot
unfoldable pub add_timer : ℤ → ℕ → ConnTimerWheel → ConnTimerWheel
add_timer player_id i w =
    let (u, l) = list_of i w in
    let timer : ConnTimer = record { address = u.nodes; player_id = player_id } in
    record u {
      store = set u.store l (list_add timer (list_at u.store l));
      nodes = suc u.nodes;
      players =
          insert player_id (record { player_id = player_id; timer_list = l; timer = timer })
            u.players;
    }

-- insert, for a heartbeat interval
unfoldable pub insert_timer : ℕ → ℤ → ConnTimerWheel → ConnTimerWheel
insert_timer heartbeat player_id w =
    let v = (remove player_id w).0 in add_timer player_id (index_ahead v (pos heartbeat)) v

-- An operation of op_chan.
pub data ConnOp : Type 0 where
  insert_op : ℤ → ConnOp
  remove_op : ℤ → ConnOp

unfoldable pub do_op : ℕ → ConnOp → ConnTimerWheel → ConnTimerWheel
do_op heartbeat (insert_op player_id) w = insert_timer heartbeat player_id w
do_op heartbeat (remove_op player_id) w = (remove player_id w).0

-- The operations that the channel holds.
unfoldable pub do_ops : ℕ → List ConnOp → ConnTimerWheel → ConnTimerWheel
do_ops heartbeat [] w = w
do_ops heartbeat (op ∷ ops) w = do_ops heartbeat ops (do_op heartbeat op w)

-- The loop over the nodes of a list; the players that GetPlayerById finds are removed and logged out,
-- in order.
unfoldable pub expire : (ℤ → Bool) → List ConnTimer → ConnTimerWheel → ConnTimerWheel × List ℤ
expire known [] w = (w, [])
expire known (t ∷ ts) w =
    let u = if known t.player_id then (remove t.player_id w).0 else w in
    let (v, out) = expire known ts u in (v, if known t.player_id then t.player_id ∷ out else out)

-- One turn of the loop over the slots.
unfoldable pub visit : (ℤ → Bool) → ℕ → ConnTimerWheel → ConnTimerWheel × List ℤ
visit known i w = elim (slot w.timer_lists i) [
  | none ↦ (w, [])
  | some l ↦
      let (v, out) = expire known (list_at w.store l) w in
      (record v { timer_lists = set v.timer_lists i none }, out)
]

-- The loop over the slots from `i` on, until `idx`, with fuel.
unfoldable pub sweep : ℕ → (ℤ → Bool) → ℕ → ℕ → ConnTimerWheel → ConnTimerWheel × List ℤ
sweep zero known idx i w = (w, [])
sweep (suc fuel) known idx i w =
    let (v, out) = visit known i w in
    let (u, more) =
      sweep fuel known idx (pos_part (rem (pos i +₃₂ pos 1) (length w.timer_lists))) v in
    if i == idx then (v, out) else (u, out ++ more)

-- The slot that the wheel turns to when `diff_secs` have passed.
unfoldable pub target : ℤ → ConnTimerWheel → ℕ
target diff_secs w =
    if pos (length w.timer_lists) ≤? diff_secs
    then (if pos 0 <? w.curr_timer_index
        then pos_part (w.curr_timer_index -₃₂ pos 1)
        else pos_part (pos (length w.timer_lists) -₃₂ pos 1))
    else index_ahead w diff_secs

-- The first check sets the time that the next one counts from.
unfoldable pub start_time : ℤ → ConnTimerWheel → ConnTimerWheel
start_time now_time w =
    if w.last_check_time =? pos 0 then record w { last_check_time = now_time } else w

-- The turn over the slots that have come since the last check.
unfoldable pub turn : (ℤ → Bool) → ℤ → ConnTimerWheel → ConnTimerWheel × List ℤ
turn known now_time w =
    let diff_secs = now_time -₃₂ w.last_check_time in
    let idx = target diff_secs w in
    let (u, out) = sweep (length w.timer_lists) known idx (index_ahead w (pos 1)) w in
    if pos 0 <? diff_secs
    then (record u { curr_timer_index = pos idx; last_check_time = now_time }, out)
    else (w, [])

-- What Run does after the operations, at a time: the wheel, and the players that are logged out.
unfoldable pub tick : (ℤ → Bool) → ℤ → ConnTimerWheel → ConnTimerWheel × List ℤ
tick known now_time w = turn known now_time (start_time now_time w)

-- One turn of Run: the operations that wait, the slots that have come, the number of players.
unfoldable pub round : ℕ → List ConnOp → (ℤ → Bool) → ℤ → ConnTimerWheel → ConnTimerWheel × List ℤ
round heartbeat ops known now_time w =
    let (v, out) = tick known now_time (do_ops heartbeat ops w) in
    (record v { last_players_num = pos (length v.players) }, out)
