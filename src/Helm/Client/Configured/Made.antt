-- ===== src/Helm/Client/Configured/Made.antt =====
-- What the files of the client have in them once they are made.
use cluster_api_provider_vcl.Base.{
  ℕ, zero, suc, ◌≡◌, ◌≢◌, ◌∙◌, refl, String, Option, some, inl, inr,
}
use cluster_api_provider_vcl.Base.Tests.{Bool-cases}
use cluster_api_provider_vcl.Runtime.{
  Result, ok, err, Exec, is_not_found, lift, continue, ◌>>=◌, wrap_error,
}
use cluster_api_provider_vcl.Helm.Client.{
  System, keep_written, write_created, write_temp, look, wait_for, write_kube_config,
}
use cluster_api_provider_vcl.Helm.Client.Configured.{Kept, HasConfig, Files}

module _ {W : Type 0} (s : System W) (config : Result String) (content : W → String → Option String)
    (misled : W → ℕ) (files : Files s config content misled) where
  wrap_error-Kept :
      {A : Type 0} (Q : A → W → Type 0) (prefix : String) (r : Result A) (n : ℕ) (w : W)
      → Kept misled n Q (r, w)
      → Kept misled n Q (wrap_error prefix r, w)
  unfolding wrap_error
  wrap_error-Kept Q prefix (ok a) n w h = h
  wrap_error-Kept Q prefix (err e) n w h = h

  keep_written-Kept :
      (R : String → W → Type 0) (file : String) (r : Result (Unit {0})) (n : ℕ) (w : W)
      → Kept misled n (λ _ w'. R file w') (r, w)
      → Kept misled n R (keep_written s file r w)
  unfolding keep_written
  keep_written-Kept R file (ok _) n w h = h
  keep_written-Kept R file (err e) n w h = files.remove file w ∙ h

  -- What is known of the file that was made, and what the writing makes of it.
  write_created-Kept :
      (Q R : String → W → Type 0) (text : String) (r : Result String) (n : ℕ) (w : W)
      → ((file : String) (u : W)
          → misled u ≡ n
          → Q file u
          → Kept misled n (λ _ w'. R file w') (s.write file text u))
      → Kept misled n Q (r, w)
      → Kept misled n R (write_created s text r w)
  unfolding write_created
  write_created-Kept Q R text (err e) n w k h = h
  write_created-Kept Q R text (ok file) n w k h =
      let (r, w') = s.write file text w in
      keep_written-Kept R file (wrap_error "write temp file" r) n w'
        (wrap_error-Kept (λ _ u. R file u) "write temp file" r n w' (k file w h.0 h.1))

  Kept-imp :
      {A : Type 0} (Q R : A → W → Type 0) (n m : ℕ) (o : Result A × W)
      → n ≡ m
      → ((a : A) (w : W) → Q a w → R a w)
      → Kept misled n Q o
      → Kept misled m R o
  Kept-imp Q R n m (ok a, w) e f h = (h.0 ∙ e, f a w h.1)
  Kept-imp Q R n m (err x, w) e f h = h ∙ e

  write_temp-Kept :
      (Q R : String → W → Type 0) (text : String) (w : W)
      → ((file : String) (u : W)
          → misled u ≡ misled w
          → Q file u
          → Kept misled (misled w) (λ _ w'. R file w') (s.write file text u))
      → Kept misled (misled w) Q (s.create_temp w)
      → Kept misled (misled w) R (write_temp s text w)
  unfolding write_temp
  write_temp-Kept Q R text w k h =
      let (r, w') = s.create_temp w in
      write_created-Kept Q R text (wrap_error "create temp file" r) (misled w) w' k
        (wrap_error-Kept Q "create temp file" r (misled w) w' h)

  -- A text is in the file that it was written to, and stays in every other one.
  write_temp-has :
      (text : String) (w : W)
      → Kept misled (misled w) (λ file w'. content w' file ≡ some text) (write_temp s text w)
  write_temp-has text w =
      write_temp-Kept (λ _ _. Unit {0}) _ text w
        (λ file u e _.
          Kept-imp _ _ _ _ (s.write file text u) e (λ _ _ q. q.0) (files.write file text u))
        (Kept-imp _ _ _ _ (s.create_temp w) refl (λ _ _ _. tt) (files.create_temp w))

  pub write_temp-spares :
      (text : String) (w : W)
      → Kept misled
          (misled w)
          (λ _ w'. (g other : String) → content w g ≡ some other → content w' g ≡ some other)
          (write_temp s text w)
  write_temp-spares text w =
      write_temp-Kept
        (λ file u.
          (g other : String) → content w g ≡ some other → (content u g ≡ some other) × (file ≢ g))
        _ text w
        (λ file u e q.
          Kept-imp _ _ _ _ (s.write file text u) e
            (λ _ _ k g other h. k.1 g other (q g other h).1 (q g other h).0)
            (files.write file text u))
        (files.create_temp w)

  look-Kept :
      (R : String → W → Type 0) (file : String) (again : Exec W String) (r : Result (Unit {0}))
      (n : ℕ) (w : W)
      → Kept misled n R (again w)
      → misled w ≡ n
      → R file w
      → Kept misled n R (look s file again r w)
  unfolding look
  look-Kept R file again (ok _) n w a h k = (h, k)
  look-Kept R file again (err e) n w a h k = elim (Bool-cases (is_not_found e)) [
    | inl b ↦ rw b a
    | inr b ↦ rw b (files.remove file w ∙ h)
  ]

  wait_for-Kept :
      (rounds : ℕ) (file text : String) (n : ℕ) (w : W)
      → misled w ≡ n
      → content w file ≡ some text
      → Kept misled n (λ g w'. content w' g ≡ some text) (wait_for s rounds file w)
  unfolding wait_for
  wait_for-Kept zero file text n w h k = (h, k)
  wait_for-Kept (suc rounds) file text n w h k =
      let (r, w') = s.stat file w in
      let (m, c) = files.stat file w in
      look-Kept (λ g u. content u g ≡ some text) file (wait_for s rounds file) r n w'
        (wait_for-Kept rounds file text n w' (m ∙ h) (c file text k)) (m ∙ h) (c file text k)

  continue-Kept :
      {A B : Type 0} (Q : A → W → Type 0) (R : B → W → Type 0) (r : Result A) (f : A → Exec W B)
      (n : ℕ) (w : W)
      → ((a : A) (u : W) → misled u ≡ n → Q a u → Kept misled n R (f a u))
      → Kept misled n Q (r, w)
      → Kept misled n R (continue r f w)
  unfolding continue
  continue-Kept Q R (ok a) f n w k h = k a w h.0 h.1
  continue-Kept Q R (err e) f n w k h = h

  abbrev Right : W → String → Type 0
  Right = HasConfig config content

  pub written_config-Kept :
      (r : Result String) (w : W)
      → config ≡ r
      → Kept misled (misled w) (λ file u. Right u file) (write_kube_config s r w)
  unfolding write_kube_config ◌>>=◌ lift continue
  written_config-Kept (err e) w p = refl
  written_config-Kept (ok text) w p =
      let (r, w') = write_temp s text w in
      continue-Kept _ (λ file u. Right u file) r (wait_for s s.wait_rounds) (misled w) w'
        (λ file u e h.
          Kept-imp _ _ _ _ (wait_for s s.wait_rounds file u) refl (λ g v q. (text, p, q))
            (wait_for-Kept s.wait_rounds file text (misled w) u e h))
        (write_temp-has text w)
