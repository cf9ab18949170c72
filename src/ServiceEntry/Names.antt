-- ===== src/ServiceEntry/Names.antt =====
-- Spellings of a host between which AllowHost does not distinguish.
use istio_forward_proxy.Base.{
  ℕ, true, false, [], ◌∷◌, ◌++◌, Bytes, codes, has_suffix, trim_suffix-append, trim_suffix_other,
  is_ascii, to_lower, lower_byte, map, ◌≡◌, refl, ap,
}
use istio_forward_proxy.ServiceEntry.Defs.{Watcher, allow_host, allow_name, normalize}

module _ (unicode_lower : Bytes → Bytes) where
  normalize_dot :
      (host : Bytes)
      → has_suffix host (codes ".") ≡ false
      → normalize unicode_lower (host ++ b'.' ∷ []) ≡ normalize unicode_lower host
  unfolding normalize
  normalize_dot host h = rw (trim_suffix-append host b'.', trim_suffix_other host b'.' h) refl

  normalize_case :
      (host name : Bytes)
      → has_suffix host (codes ".") ≡ false
      → has_suffix name (codes ".") ≡ false
      → is_ascii host ≡ true
      → is_ascii name ≡ true
      → map lower_byte host ≡ map lower_byte name
      → normalize unicode_lower host ≡ normalize unicode_lower name
  unfolding normalize to_lower
  normalize_case host name h k a b e =
      rw (trim_suffix_other host b'.' h, trim_suffix_other name b'.' k, a, b) e

  -- A fully qualified name with its final dot is decided like the name without it, in every state.
  pub allow_host_dot :
      (w : Watcher) (host : Bytes) (port : ℕ)
      → has_suffix host (codes ".") ≡ false
      → allow_host unicode_lower w (host ++ b'.' ∷ []) port ≡ allow_host unicode_lower w host port
  unfolding allow_host
  allow_host_dot w host port h = ap (λ name. allow_name w name port) (normalize_dot host h)

  -- Two ASCII names without a final dot that differ in the case of letters are decided alike.
  pub allow_host_case :
      (w : Watcher) (host name : Bytes) (port : ℕ)
      → has_suffix host (codes ".") ≡ false
      → has_suffix name (codes ".") ≡ false
      → is_ascii host ≡ true
      → is_ascii name ≡ true
      → map lower_byte host ≡ map lower_byte name
      → allow_host unicode_lower w host port ≡ allow_host unicode_lower w name port
  unfolding allow_host
  allow_host_case w host name port h k a b e =
      ap (λ n. allow_name w n port) (normalize_case host name h k a b e)
