-- ===== src/Shortener/System/Reach.antt =====
-- Runs of the service (url-shortener/src/application/mod.rs): its calls in any order, with a cache
-- that may drop entries at any time.
use hicho.Common.{ℕ, ◌≡◌, Option, none, some, List, Bytes, bytes_key, arith, ok}
use hicho.Shortener.Domain.ShortCode.{parse_cases}
use hicho.Shortener.Domain.TargetUrl.{UrlCrate, TargetUrl}
use hicho.Shortener.Memory.{InMemoryLinkRepository, dispatch}
use hicho.Cache.{Cache}
use hicho.Clock.{now_unix}
use hicho.Shortener.Service.{create, resolve, resolve_uncached, get, delete}
use hicho.Shortener.System.{World, with_cache}
use hicho.Cache.Lawful.{Lawful, Shrinks}
use hicho.Shortener.System.Coherence.{
  IsCoherent, IsLive, stored_target, create-IsCoherent, resolve-IsCoherent, delete-IsCoherent,
  get-IsCoherent,
}

module _ {C : Type 0} {c : Cache C} (law : Lawful c) (hosts : List Bytes) (url : UrlCrate) where
  -- One call of the service, or the loss of cache entries. The calls of `get` find no expired link.
  pub data Step : World C → World C → Type 0 where
    create_call :
        (w : World C) (raw : Bytes) (alias : Option Bytes) (ttl now : Option ℕ) (draws : ℕ → ℕ → ℕ)
        → Step w (create url (with_cache hosts c) raw alias ttl now draws w).1
    resolve_call :
        (w : World C) (raw : Bytes) (now later : Option ℕ)
        → Step w (resolve (with_cache hosts c) raw now later w).1
    get_call :
        (w : World C) (raw : Bytes) (now : Option ℕ)
        → IsLive raw (now_unix now) w.links
        → Step w (get (with_cache hosts c) raw now w).1
    delete_call : (w : World C) (raw : Bytes) → Step w (delete (with_cache hosts c) raw w).1
    evict :
        (w : World C) (s : C)
        → ((k : Bytes) → Shrinks (law.holds s k) (law.holds w.cached k))
        → Step w (record w { cached = s })

  pub data Reach (start : World C) : World C → Type 0 where
    here : Reach start start
    next : {w w' : World C} → Reach start w → Step w w' → Reach start w'

  Step-IsCoherent : {w w' : World C} → Step w w' → IsCoherent law w → IsCoherent law w'
  Step-IsCoherent (create_call w raw alias ttl now draws) h =
      create-IsCoherent law hosts url raw alias ttl now draws w h
  Step-IsCoherent (resolve_call w raw now later) h = resolve-IsCoherent law hosts raw now later w h
  Step-IsCoherent (get_call w raw now live) h = get-IsCoherent law hosts raw now w live h
  Step-IsCoherent (delete_call w raw) h = delete-IsCoherent law hosts raw w h
  Step-IsCoherent (evict w s less) h = λ k t. ground (arith, less k, h k t)

  Reach-IsCoherent : {start w : World C} → IsCoherent law start → Reach start w → IsCoherent law w
  Reach-IsCoherent h here = h
  Reach-IsCoherent h (next r st) = Step-IsCoherent st (Reach-IsCoherent h r)

module _ {C : Type 0} {c : Cache C} (law : Lawful c) (hosts : List Bytes) where
  coherent_resolve :
      (raw : Bytes) (now later : Option ℕ) (links : InMemoryLinkRepository) (s : C) (t : TargetUrl)
      → IsCoherent law (record { links = links; cached = s })
      → (resolve (with_cache hosts c) raw now later (record { links = links; cached = s })).0 ≡ ok t
      → stored_target raw links ≡ some t.as_str
  unfolding resolve resolve_uncached dispatch
  coherent_resolve raw now later none s t h e =
      ground (arith, parse_cases raw, law.got raw s, h raw t.as_str)
  coherent_resolve raw now later (some m) s t h e =
      ground (arith, parse_cases raw, law.got raw s, h raw t.as_str)

-- In every world that calls of `create`, `resolve`, `delete` and `get` (of links that have not
-- expired) reach, in any order and with any loss of cache entries in between, `resolve` serves for
-- a code only the target that the store holds for it; from a start whose cache agrees with its store.
pub resolve_serves_stored :
    {C : Type 0} {c : Cache C} (law : Lawful c) (hosts : List Bytes) (url : UrlCrate)
    {start w : World C} (raw : Bytes) (now later : Option ℕ) (t : TargetUrl)
    → IsCoherent law start
    → Reach law hosts url start w
    → (resolve (with_cache hosts c) raw now later w).0 ≡ ok t
    → stored_target raw w.links ≡ some t.as_str
resolve_serves_stored law hosts url {w = w} raw now later t h r e =
    coherent_resolve law hosts raw now later w.links w.cached t (Reach-IsCoherent law hosts url h r)
      e
