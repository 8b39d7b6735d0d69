-- ===== src/Pastebin/System/OneShot/Turns.antt =====
-- Schedules of fetches and deletes (pastebin-service/src/application/mod.rs).
use hicho.Common.{
  ℕ, zero, suc, ◌+◌, ◌≤◌, ◌≡◌, refl, none, some, List, [], ◌∷◌, Bytes, bytes_key, arith,
}
use hicho.Cache.{Cache}
use hicho.Cache.Lawful.{Lawful}
use hicho.Pastebin.Domain.PasteId.{from_trusted}
use hicho.Pastebin.Memory.{InMemoryPasteRepository}
use hicho.Pastebin.Service.Snapshot.{JsonCrate}
use hicho.Pastebin.Service.{PasteService, delete, start, advance}
use hicho.Pastebin.System.{World, with_cache}
use hicho.Pastebin.System.OneShot.{
  Task, HasOneShot, StoresOneShot, NotCached, served, stored, advance-Burns, delete-Burns,
}

-- Who moves next: a fetch by one step, or a client's whole `delete`.
pub data Turn : Type 0 where
  fetch_step : ℕ → Turn
  delete_call : Bytes → Turn

module _ {W : Type 0} (json : JsonCrate) (s : PasteService W) where
  unfoldable pub step_task : Task → W → Task × W
  step_task t w =
      let (p, w') = advance json s (from_trusted t.id) t.readings t.phase w in
      (record t { phase = p }, w')

  unfoldable pub step_nth : ℕ → List Task → W → List Task × W
  step_nth n [] w = ([], w)
  step_nth zero (t ∷ ts) w = let (t', w') = step_task t w in (t' ∷ ts, w')
  step_nth (suc n) (t ∷ ts) w = let (ts', w') = step_nth n ts w in (t ∷ ts', w')

  unfoldable pub take_turn : Turn → List Task × W → List Task × W
  take_turn (fetch_step n) (ts, w) = step_nth n ts w
  take_turn (delete_call raw) (ts, w) = (ts, (delete s raw w).1)

  -- A schedule: any order of turns.
  unfoldable pub run_turns : List Turn → List Task × W → List Task × W
  run_turns [] state = state
  run_turns (t ∷ ts) state = run_turns ts (take_turn t state)

-- fetches that have not made a step
abbrev pub AllStart : List Task → Type 0
AllStart [] = Unit
AllStart (t ∷ ts) = (t.phase ≡ start) × AllStart ts

module _ {C : Type 0} {c : Cache C} (law : Lawful c) (json : JsonCrate) (k : Bytes) where
  abbrev AllOneShot : List Task → Type 0
  AllOneShot [] = Unit
  AllOneShot (t ∷ ts) = HasOneShot k t.id t.phase × AllOneShot ts

  abbrev Inv : List Task × World C → Type 0
  Inv (ts, w) = AllOneShot ts × StoresOneShot k w.pastes × NotCached law json k w.cached

  abbrev total : List Task × World C → ℕ
  total (ts, w) = served k ts + stored k w.pastes

  -- No turn breaks the invariant, or raises the number of served copies and stored pastes.
  step_nth-Inv :
      (n : ℕ) (ts : List Task) (w : World C)
      → Inv (ts, w)
      → Inv (step_nth json (with_cache c) n ts w)
        × (total (step_nth json (with_cache c) n ts w) ≤ total (ts, w))
  unfolding step_nth step_task
  step_nth-Inv n [] w h = (h, omega arith)
  step_nth-Inv zero (t ∷ ts) w h =
      ground
        (arith, advance-Burns law json k t.id t.readings t.phase w.pastes w.cached h.0.0 h.1 h.2)
  step_nth-Inv (suc n) (t ∷ ts) w h = ground (arith, step_nth-Inv n ts w (h.0.1, h.1, h.2))

  run_turns-Inv :
      (turns : List Turn) (s : List Task × World C)
      → Inv s
      → Inv (run_turns json (with_cache c) turns s)
        × (total (run_turns json (with_cache c) turns s) ≤ total s)
  unfolding run_turns take_turn
  run_turns-Inv [] s h = (h, omega arith)
  run_turns-Inv (fetch_step n ∷ turns) (ts, w) h =
      let first = step_nth-Inv n ts w h in
      let rest = run_turns-Inv turns (step_nth json (with_cache c) n ts w) first.0 in
      (rest.0, omega (arith, rest.1, first.1))
  run_turns-Inv (delete_call raw ∷ turns) (ts, w) h =
      let first = delete-Burns law json k raw w.pastes w.cached h.1 h.2 in
      let rest =
        run_turns-Inv turns (ts, (delete (with_cache c) raw w).1) (h.0, first.0, first.1) in
      (rest.0, omega (arith, rest.1, first.2))

  AllStart-AllOneShot : (ts : List Task) → AllStart ts → AllOneShot ts × (served k ts ≡ 0)
  AllStart-AllOneShot [] h = (tt, refl)
  AllStart-AllOneShot (t ∷ ts) h = ground (arith, AllStart-AllOneShot ts h.1)

  pub stored-le-one : (m : InMemoryPasteRepository) → stored k m ≤ 1
  stored-le-one none = omega arith
  stored-le-one (some m) = ground arith

  -- A one-shot paste is served at most once, however many fetches of it (and of other pastes) run
  -- at the same time, in every order of their steps and of deletes, over any cache that holds no
  -- paste under its id at the start.
  pub served-le-one :
      (turns : List Turn) (ts : List Task) (w : World C)
      → AllStart ts
      → StoresOneShot k w.pastes
      → NotCached law json k w.cached
      → served k (run_turns json (with_cache c) turns (ts, w)).0 ≤ 1
  served-le-one turns ts w fresh st nc =
      let (one, zero_served) = AllStart-AllOneShot ts fresh in
      omega
        (arith, (run_turns-Inv turns (ts, w) (one, st, nc)).1, zero_served, stored-le-one w.pastes)
