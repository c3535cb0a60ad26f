-- ===== src/ServerList/Reread.antt =====
-- A configuration that is read again.
use Prim.Native.String.{String}
use text.Mathlib.Text.{◌==◌ as str_eq}
use ih_server.Base.{ℤ, pos, none, some, true, false, [], ◌≡◌, refl, arith, ◌-₃₂◌, ◌≤?◌}
use ih_server.ServerList.{
  ServerList, Codec, random_one_server, read_config, reread_config, run_round,
}

-- Where the file on the disk has changed to a text that is not JSON, a round of Run that is due
-- succeeds, and after it RandomOneServer panics, whatever the list was. Unmarshal leaves what it
-- fills as it is where the text is not JSON.
pub run_round_panic :
    (codec : Codec) (s : ServerList) (text : String) (now : ℤ) (int31n : ℤ → ℤ)
    → ((t : ServerList) → codec.unmarshal text t ≡ (t, false))
    → str_eq (codec.get_md5 text) s.md5_str ≡ false
    → (pos 60 ≤? now -₃₂ s.last_time) ≡ true
    → (t : ServerList) × (run_round codec now (some text) s ≡ some t)
      × (random_one_server int31n t ≡ none)
unfolding run_round reread_config read_config random_one_server
run_round_panic codec s text now int31n bad new due =
    let emptied = record s { servers = []; total_weight = pos 0 } in
    (record emptied { last_time = now }, ground (arith, due, new, bad emptied), refl)
