-- ===== src/Shortener/System/Stale.antt =====
-- What `get` leaves in the cache (url-shortener/src/application/mod.rs).
use hicho.Common.{
  ℕ, true, bytes_eq_refl, ◌≡◌, Option, none, some, List, Bytes, bytes_key, arith, ok, err,
}
use hicho.Common.Map.{lookup, lookup-remove}
use hicho.Shortener.Domain.ShortCode.{parse_accepts, IsCode}
use hicho.Shortener.Domain.Link.{Link, is_expired}
use hicho.Shortener.Domain.TargetUrl
use hicho.Shortener.Domain.TargetUrl.{UrlCrate, TargetUrl}
use hicho.Shortener.Memory.{Links, dispatch}
use hicho.Cache.{Cache}
use hicho.Clock.{now_unix}
use hicho.Shortener.Service.{not_found, resolve, get}
use hicho.Shortener.System.{with_cache}
use hicho.Shortener.System.Coherence.{stored_target}

-- `get` of an expired link takes it out of the store and leaves its cache entry: `resolve`
-- goes on answering with the target.
pub get_leaves_stale :
    {C : Type 0} (c : Cache C) (blocked : List Bytes) (raw t : Bytes) (now later₁ later₂ : Option ℕ)
    (m : Links) (s : C) (l : Link)
    → IsCode raw
    → lookup raw m ≡ some l
    → is_expired l (now_unix now) ≡ true
    → (c.get raw s).0 ≡ some t
    → let (answer, w) =
        get (with_cache blocked c) raw now (record { links = some m; cached = s }) in
      (answer ≡ err not_found)
      × (stored_target raw w.links ≡ none)
      × ((resolve (with_cache blocked c) raw later₁ later₂ w).0 ≡ ok (TargetUrl.from_trusted t))
unfolding get resolve dispatch
get_leaves_stale c blocked raw t now later₁ later₂ m s l code found expired hit =
    ground (arith, parse_accepts raw code, lookup-remove raw raw m, bytes_eq_refl raw)
