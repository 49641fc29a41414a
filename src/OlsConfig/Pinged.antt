-- ===== src/OlsConfig/Pinged.antt =====
-- What `IsOLSConfigReady` writes.
use osls_operator.Base.{String, ◌≡◌, ◌≢◌, arith, ◌⊎◌, true, false, ◌∷◌, Option}
use osls_operator.OlsConfig.Removal.{get_olsconfig-Reads}
use osls_operator.OlsConfig.Ready.{olsconfig_ping, ready_or_ping, is_olsconfig_ready}
use osls_operator.Platform.Kinds.{kinds, update_config}
use osls_operator.Platform.{Platform}
use osls_operator.Platform.Exec.{returns, World}

module _ (P : Platform) where
  ping_trace :
      (w : World P.State)
      → let r = olsconfig_ping P w in
        (kinds r.1.trace ≡ update_config ∷ kinds w.trace)
        ⊎ ((r.0 ≢ returns tt) × (r.1.trace ≡ w.trace))
  unfolding olsconfig_ping
  ping_trace w = grind (arith, get_olsconfig-Reads P)

  ready_or_ping_trace :
      (status : Option String) (w : World P.State)
      → let r = ready_or_ping P status w in
        ((r.0 ≡ returns true) × (r.1.trace ≡ w.trace))
        ⊎ (((r.0 ≢ returns true) × (kinds r.1.trace ≡ update_config ∷ kinds w.trace))
            ⊎ ((r.0 ≢ returns true) × (r.0 ≢ returns false) × (r.1.trace ≡ w.trace)))
  unfolding ready_or_ping
  ready_or_ping_trace status w = ground (arith, ping_trace w)

  -- `IsOLSConfigReady` writes nothing when it reports that the OLSConfig is ready; otherwise
  -- it has updated one OLSConfig, once, or it returns an error or panics and has written
  -- nothing.
  pub is_olsconfig_ready_trace :
      (w : World P.State)
      → let r = is_olsconfig_ready P w in
        ((r.0 ≡ returns true) × (r.1.trace ≡ w.trace))
        ⊎ (((r.0 ≢ returns true) × (kinds r.1.trace ≡ update_config ∷ kinds w.trace))
            ⊎ ((r.0 ≢ returns true) × (r.0 ≢ returns false) × (r.1.trace ≡ w.trace)))
  unfolding is_olsconfig_ready
  is_olsconfig_ready_trace w = grind (arith, get_olsconfig-Reads P, ready_or_ping_trace)

module _ (P : Platform) where
  instance-ready_or_ping :
      (status : Option String) (w : World P.State)
      → (ready_or_ping P status w).1.instance ≡ w.instance
  unfolding ready_or_ping olsconfig_ping
  instance-ready_or_ping status w = grind (arith, get_olsconfig-Reads P)

  pub instance-is_olsconfig_ready :
      (w : World P.State) → (is_olsconfig_ready P w).1.instance ≡ w.instance
  unfolding is_olsconfig_ready
  instance-is_olsconfig_ready w = grind (arith, get_olsconfig-Reads P, instance-ready_or_ping)
