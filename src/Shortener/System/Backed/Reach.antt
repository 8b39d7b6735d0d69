-- ===== src/Shortener/System/Backed/Reach.antt =====
-- Runs of the service over any repository that keeps its targets (url-shortener/src/application/mod.rs):
-- calls in any order, writes of a batching recorder between them, and a cache that may drop entries.
use hicho.Common.{ℕ, ◌≡◌, false, Option, some, List, Bytes, ok, arith}
use hicho.Common.Int.{ℤ}
use hicho.Cache.{Cache}
use hicho.Cache.Lawful.{Lawful, Shrinks}
use hicho.Clock.{now_unix}
use hicho.Shortener.Domain.ShortCode.{ShortCode, from_trusted}
use hicho.Shortener.Domain.Link.{Link, LinkRepository, is_expired}
use hicho.Shortener.Domain.TargetUrl.{UrlCrate, TargetUrl}
use hicho.Shortener.Service.{create, resolve, get, delete}
use hicho.Shortener.System.Backed.{World, with_cache, TargetStore}
use hicho.Shortener.System.Backed.Creates.{create-Agrees}
use hicho.Shortener.System.Backed.Calls.{
  Agrees, resolve-Agrees, delete-Agrees, get-Agrees, resolve-target,
}

module _ {D C : Type 0} (repo : LinkRepository D) {c : Cache C} (law : Lawful c)
    (hosts : List Bytes) (url : UrlCrate) where
  -- One call of the service, a write of a batching recorder, or the loss of cache entries. The calls
  -- of `get` find no expired link.
  pub data Step : World D C → World D C → Type 0 where
    create_call :
        (w : World D C) (raw : Bytes) (alias : Option Bytes) (ttl now : Option ℕ)
        (draws : ℕ → ℕ → ℕ)
        → Step w (create url (with_cache repo hosts c) raw alias ttl now draws w).1
    resolve_call :
        (w : World D C) (raw : Bytes) (now later : Option ℕ)
        → Step w (resolve (with_cache repo hosts c) raw now later w).1
    get_call :
        (w : World D C) (raw : Bytes) (now : Option ℕ)
        → ((l : Link)
            → (repo.get (from_trusted raw) w.store).0 ≡ ok (some l)
            → is_expired l (now_unix now) ≡ false)
        → Step w (get (with_cache repo hosts c) raw now w).1
    delete_call : (w : World D C) (raw : Bytes) → Step w (delete (with_cache repo hosts c) raw w).1
    count_write :
        (w : World D C) (code : ShortCode) (n : ℤ)
        → Step w (record w { store = (repo.increment_hits_by code n w.store).1 })
    evict :
        (w : World D C) (s : C)
        → ((k : Bytes) → Shrinks (law.holds s k) (law.holds w.cached k))
        → Step w (record w { cached = s })

  pub data Reach (start : World D C) : World D C → Type 0 where
    here : Reach start start
    next : {w w' : World D C} → Reach start w → Step w w' → Reach start w'

module _ {D C : Type 0} {repo : LinkRepository D} {c : Cache C} (law : Lawful c)
    {IsSound : D → Type 0} {target_of : Bytes → D → Option Bytes}
    (keeps : TargetStore repo IsSound target_of) (hosts : List Bytes) (url : UrlCrate) where
  Step-Agrees :
      {w w' : World D C} → Step repo law hosts url w w' → Agrees law keeps w → Agrees law keeps w'
  Step-Agrees (create_call w raw alias ttl now draws) h =
      create-Agrees law keeps hosts url raw alias ttl now draws w h
  Step-Agrees (resolve_call w raw now later) h = resolve-Agrees law keeps hosts raw now later w h
  Step-Agrees (get_call w raw now live) h = get-Agrees law keeps hosts raw now w live h
  Step-Agrees (delete_call w raw) h = delete-Agrees law keeps hosts raw w h
  Step-Agrees (count_write w code n) h = (
    keeps.add_sound code n w.store h.0,
    λ k t. ground (arith, keeps.add_same code n k w.store h.0, h.1 k t),
  )
  Step-Agrees (evict w s less) h = (h.0, λ k t. ground (arith, less k, h.1 k t))

  Reach-Agrees :
      {start w : World D C}
      → Agrees law keeps start
      → Reach repo law hosts url start w
      → Agrees law keeps w
  Reach-Agrees h here = h
  Reach-Agrees h (next r st) = Step-Agrees st (Reach-Agrees h r)

  pub reached-target :
      {start w : World D C} (raw : Bytes) (now later : Option ℕ) (target : TargetUrl)
      → Agrees law keeps start
      → Reach repo law hosts url start w
      → (resolve (with_cache repo hosts c) raw now later w).0 ≡ ok target
      → target_of raw w.store ≡ some target.as_str
  reached-target {w = w} raw now later target h r e =
      resolve-target law keeps hosts raw now later w target (Reach-Agrees h r) e
