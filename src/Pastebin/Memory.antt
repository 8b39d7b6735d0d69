-- ===== src/Pastebin/Memory.antt =====
-- The in-memory repository, an actor that owns the map
-- (pastebin-service/src/infrastructure/memory.rs).
pub mod Refines
use hicho.Common.{
  Bool, true, false, Option, none, some, List, [], ◌∷◌, Bytes, bytes_key, ok, Action, pure, raise,
  ◌>>=◌, ◌>>◌, if◌then◌else◌,
}
use hicho.Common.Int.{ℤ, add_i64}
use hicho.Common.Map.{Map, lookup, insert as insert_entry, remove, modify}
use hicho.Common.Text.{bytes}
use hicho.Pastebin.Domain.Errors.{RepoError, conflict, backend}
use hicho.Pastebin.Domain.Paste.{Paste, PasteRepository}

abbrev pub Pastes : Type 0
Pastes = Map Bytes Paste

-- Commands, with the reply channel left out: the answer is the value that `step` returns.
pub data Cmd : Type 0 where
  insert : Paste → Cmd
  get take : Bytes → Cmd
  increment_by : Bytes → ℤ → Cmd
  delete : Bytes → Cmd
  ping : Cmd

pub data Reply : Type 0 where
  inserted updated deleted : Bool → Reply
  found taken : Option Paste → Reply
  pong : Reply

abbrev is_some {ℓ} : {A : Type ℓ} → Option A → Bool
is_some none = false
is_some (some a) = true

abbrev pub add_views : ℤ → Paste → Paste
add_views n paste = record paste { views = add_i64 paste.views n }

-- One round of the actor loop `run`.
unfoldable pub step : Cmd → Pastes → Reply × Pastes
step (Cmd.insert paste) pastes = elim (lookup paste.id.as_str pastes) [
  | some _ ↦ (inserted false, pastes)
  | none ↦ (inserted true, insert_entry paste.id.as_str paste pastes)
]
step (Cmd.get i) pastes = (found (lookup i pastes), pastes)
step (Cmd.take i) pastes = (taken (lookup i pastes), remove i pastes)
step (Cmd.increment_by i n) pastes = elim (lookup i pastes) [
  | some _ ↦ (updated true, modify i (add_views n) pastes)
  | none ↦ (updated false, pastes)
]
step (Cmd.delete i) pastes = (deleted (is_some (lookup i pastes)), remove i pastes)
step Cmd.ping pastes = (pong, pastes)

-- The commands that the actor takes off its channel, in order, with their replies.
unfoldable pub run : List Cmd → Pastes → List Reply × Pastes
run [] pastes = ([], pastes)
run (cmd ∷ rest) pastes =
    let (reply, pastes') = step cmd pastes in
    let (replies, last) = run rest pastes' in (reply ∷ replies, last)

-- What the handles see: the map while the task runs, `none` once it has stopped.
abbrev pub InMemoryPasteRepository : Type 0
InMemoryPasteRepository = Option Pastes

abbrev pub actor_stopped : RepoError
actor_stopped = backend (bytes "in-memory repository task has stopped")

-- `dispatch`, and the wait for the reply
unfoldable pub dispatch : Cmd → Action InMemoryPasteRepository RepoError Reply
unfolding step
dispatch cmd none = raise actor_stopped none
dispatch cmd (some pastes) = let (reply, pastes') = step cmd pastes in (ok reply, some pastes')

-- The reply channel of each command is typed, so that a reply of another kind cannot come.
abbrev as_flag : Reply → Action InMemoryPasteRepository RepoError Bool
as_flag (inserted b) = pure b
as_flag (updated b) = pure b
as_flag (deleted b) = pure b
as_flag _ = raise actor_stopped

abbrev as_paste : Reply → Action InMemoryPasteRepository RepoError (Option Paste)
as_paste (found p) = pure p
as_paste (taken p) = pure p
as_paste _ = raise actor_stopped

abbrev repo_insert : Paste → Action InMemoryPasteRepository RepoError (Unit {0})
repo_insert paste = do
  fresh ← as_flag (← dispatch (Cmd.insert paste))
  if fresh then pure tt else raise conflict

-- `impl PasteRepository for InMemoryPasteRepository`
abbrev pub repository : PasteRepository InMemoryPasteRepository
repository = record {
  insert = repo_insert;
  get = λ i. dispatch (Cmd.get i.as_str) >>= as_paste;
  take = λ i. dispatch (Cmd.take i.as_str) >>= as_paste;
  increment_views_by = λ i n. dispatch (Cmd.increment_by i.as_str n) >>= as_flag;
  delete = λ i. dispatch (Cmd.delete i.as_str) >>= as_flag;
  ping = dispatch Cmd.ping >> pure tt;
}
