-- ===== src/Pastebin/System/Burning/Turns.antt =====
-- Schedules of fetches and deletes over a repository that takes a paste at most once
-- (pastebin-service/src/application/mod.rs).
use hicho.Common.{ℕ, zero, suc, ◌+◌, ◌≤◌, ◌≡◌, refl, List, [], ◌∷◌, Bytes, arith}
use hicho.Cache.{Cache}
use hicho.Cache.Lawful.{Lawful}
use hicho.Pastebin.Domain.Paste.{PasteRepository}
use hicho.Pastebin.Service.Snapshot.{JsonCrate}
use hicho.Pastebin.Service.{delete}
use hicho.Pastebin.System.OneShot.{Task, HasOneShot, served}
use hicho.Pastebin.System.OneShot.Turns.{
  Turn, fetch_step, delete_call, step_task, step_nth, take_turn, run_turns, AllStart,
}
use hicho.Pastebin.System.Burning.{World, with_cache, OneShotStore, NotCached}
use hicho.Pastebin.System.Burning.Calls.{Kept, advance-Burns, delete-Burns}

module _ {D C : Type 0} {repo : PasteRepository D} {c : Cache C} (law : Lawful c) (json : JsonCrate)
    (k : Bytes) {IsBurning : D → Type 0} {count : D → ℕ}
    (one : OneShotStore repo k IsBurning count) where
  abbrev AllOneShot : List Task → Type 0
  AllOneShot [] = Unit
  AllOneShot (t ∷ ts) = HasOneShot k t.id t.phase × AllOneShot ts

  abbrev Inv : List Task × World D C → Type 0
  Inv (ts, w) = AllOneShot ts × Kept law json k one w

  abbrev total : List Task × World D C → ℕ
  total (ts, w) = served k ts + count w.store

  step_nth-Inv :
      (n : ℕ) (ts : List Task) (w : World D C)
      → Inv (ts, w)
      → Inv (step_nth json (with_cache repo c) n ts w)
        × (total (step_nth json (with_cache repo c) n ts w) ≤ total (ts, w))
  unfolding step_nth step_task
  step_nth-Inv n [] w h = (h, omega arith)
  step_nth-Inv zero (t ∷ ts) w h =
      ground (arith, advance-Burns law json k one t.id t.readings t.phase w h.0.0 h.1)
  step_nth-Inv (suc n) (t ∷ ts) w h = ground (arith, step_nth-Inv n ts w (h.0.1, h.1))

  run_turns-Inv :
      (turns : List Turn) (s : List Task × World D C)
      → Inv s
      → total (run_turns json (with_cache repo c) turns s) ≤ total s
  unfolding run_turns take_turn
  run_turns-Inv [] s h = omega arith
  run_turns-Inv (fetch_step n ∷ turns) (ts, w) h =
      let first = step_nth-Inv n ts w h in
      let rest = run_turns-Inv turns (step_nth json (with_cache repo c) n ts w) first.0 in
      omega (arith, rest, first.1)
  run_turns-Inv (delete_call raw ∷ turns) (ts, w) h =
      let first = delete-Burns law json k one raw w h.1 in
      let rest = run_turns-Inv turns (ts, (delete (with_cache repo c) raw w).1) (h.0, first.0) in
      omega (arith, rest, first.1)

  AllStart-AllOneShot : (ts : List Task) → AllStart ts → AllOneShot ts × (served k ts ≡ 0)
  AllStart-AllOneShot [] h = (tt, refl)
  AllStart-AllOneShot (t ∷ ts) h = ground (arith, AllStart-AllOneShot ts h.1)

  pub burns_once :
      (turns : List Turn) (ts : List Task) (w : World D C)
      → AllStart ts
      → IsBurning w.store
      → NotCached repo law json k w.cached
      → served k (run_turns json (with_cache repo c) turns (ts, w)).0 ≤ 1
  burns_once turns ts w fresh burning nc =
      let (all, zero_served) = AllStart-AllOneShot ts fresh in
      omega (
        arith,
        run_turns-Inv turns (ts, w) (all, (burning, nc)),
        zero_served,
        one.count_lem w.store,
      )
