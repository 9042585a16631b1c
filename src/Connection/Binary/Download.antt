-- ===== src/Connection/Binary/Download.antt =====
-- What stands behind a path that the search for a binary returns.
use ansible_go.Base.{
  contains-here, contains-there, ◌≡◌, refl, ap, sym, subst, some-injective, path_join, ◌∙◌, ℕ, ◌≤◌,
  String, true, false, Option, some, none, List, [], ◌∷◌, ◌⊎◌, inl, inr, arith, ◌==◌, not, ltb, eqb,
  contains,
}
use ansible_go.Run.{Result, ok, pure, raise}
use ansible_go.Run.Ensures.{
  ok-injective, Ensures, Ensures-bind, Ensures-weaken, Ensures-attempt, Ensures-handle, Ensures-if,
  Ensures-pure, Ensures-raise, Ensures-nothing,
}
use ansible_go.Env.{Step, Event, setup, is_file, size_of, make_executable, replace, Env}
use ansible_go.World.{World}
use ansible_go.Connection.{Tools, step}
use ansible_go.Connection.Binary.{
  Disk, Places, cache_dir, candidates, versioned_name, file_there, first_file, size_there, install,
  curl_failed, too_small, fill, make_cache, close_file, new_temp, load, download_binary,
  or_download, find_local_binary,
}

abbrev Any : World → Type 0
Any w = Unit {0}

module _ (env : Env) (tools : Tools) (disk : Disk) (at : Places) where
  -- The last steps measured the file, found it large enough, made it executable and moved it to the
  -- path.
  abbrev pub IsInstalled : String → World → Type 0
  IsInstalled dest w =
      (temp : String) × (log : List Event) × (n : ℕ) × (w.log
        ≡ setup (replace temp dest) ∷ setup (make_executable temp) ∷ setup (size_of temp) ∷ log)
      × (disk.size (setup (size_of temp) ∷ log) ≡ ok n)
      × (1_000_000 ≤ n)

  -- The size of the file was asked for last.
  abbrev Sized : String → ℕ → World → Type 0
  Sized temp n w =
      (log : List Event) × (w.log ≡ setup (size_of temp) ∷ log)
      × (disk.size (setup (size_of temp) ∷ log) ≡ ok n)

  Sized-size_there : (temp : String) → Ensures Any (size_there env tools disk at temp) (Sized temp)
  unfolding size_there step
  Sized-size_there temp = record { at = λ w p n h. (w.log, refl, h) }

  -- One step behind a world with the property.
  abbrev Behind : Step → (World → Type 0) → World → Type 0
  Behind s P w = (v : World) × P v × (w.log ≡ setup s ∷ v.log)

  Behind-step :
      {A : Type 0} (P : World → Type 0) (s : Step) (answer : List Event → Result A)
      → Ensures P (step s answer) (λ a w. Behind s P w)
  unfolding step
  Behind-step P s answer = record { at = λ w p a h. (w, p, refl) }

  IsInstalled-Behind :
      (temp dest : String) (n : ℕ) (w : World)
      → 1_000_000 ≤ n
      → Behind (replace temp dest) (Behind (make_executable temp) (Sized temp n)) w
      → IsInstalled dest w
  IsInstalled-Behind temp dest n w large b =
      let moved = b.2 in
      let made = b.1.2 in
      let sized = b.1.1 in
      (
        temp,
        sized.0,
        n,
        moved
            ∙ ap (λ (l : List Event). setup (replace temp dest) ∷ l)
                (made ∙ ap (λ (l : List Event). setup (make_executable temp) ∷ l) sized.1),
        sized.2,
        large,
      )

  IsInstalled-install :
      (temp dest : String) (n : ℕ)
      → 1_000_000 ≤ n
      → Ensures (Sized temp n) (install env tools disk at temp dest) (λ u w. IsInstalled dest w)
  unfolding install
  IsInstalled-install temp dest n large = Ensures-bind _ _ (Behind-step _ _ disk.mode_set) (λ u.
      Ensures-weaken (Behind-step _ _ disk.replaced) (λ s p. p)
        (λ v w b. IsInstalled-Behind temp dest n w large b))

  large_enough : (n : ℕ) → ltb n 1_000_000 ≡ false → 1_000_000 ≤ n
  large_enough n h = ground arith

  IsInstalled-fill :
      (url temp dest : String)
      → Ensures Any (fill env tools disk at url temp dest) (λ u w. IsInstalled dest w)
  unfolding fill
  IsInstalled-fill url temp dest = Ensures-bind _ _ (Ensures-nothing _) (λ done.
      Ensures-if (not (eqb done.returncode 0)) (raise (curl_failed env tools disk at url done)) _
        (λ e. Ensures-raise _)
        (λ e. Ensures-bind _ _ (Sized-size_there temp) (λ n.
          Ensures-if (ltb n 1_000_000) (raise (too_small env tools disk at url n)) _
            (λ small. Ensures-raise _)
            (λ large. IsInstalled-install temp dest n (large_enough n large)))))

  -- A path that the download returns is that of the cache, and the binary is installed there.
  abbrev Loads : String → Option String → World → Type 0
  Loads name r w = (p : String) → r ≡ some p → (p ≡ path_join (cache_dir at) name) × IsInstalled p w

  Loads-none : {P : World → Type 0} (name : String) → Ensures P (pure none) (Loads name)
  Loads-none name = Ensures-pure none (λ s h p e. cc)

  Loads-load :
      (url name temp : String) → Ensures Any (load env tools disk at url name temp) (Loads name)
  unfolding load
  Loads-load url name temp =
      Ensures-bind _ _ (Ensures-attempt _ (Ensures-nothing (close_file env tools disk at)))
        (λ closed.
          Ensures-handle closed _ _
            (λ e.
              Ensures-bind _ _ (Ensures-nothing _)
                (λ u. Ensures-bind _ _ (Ensures-nothing _) (λ v. Ensures-raise _)))
            (λ u. Ensures-bind _ _ (Ensures-attempt _ (IsInstalled-fill url temp _)) (λ filled.
              Ensures-handle filled _ _
                (λ e. Ensures-bind _ _ (Ensures-nothing _) (λ v. Ensures-raise _))
                (λ v. Ensures-pure _ (λ s h p e. installed s h p e)))))
    where
      installed :
          (s : World)
          → IsInstalled (path_join (cache_dir at) name) s
          → (p : String) → some (path_join (cache_dir at) name) ≡ some p
          → (p ≡ path_join (cache_dir at) name) × IsInstalled p s
      installed s h p e =
          let same = some-injective _ _ e in (sym same, subst (λ q. IsInstalled q s) same h)

  Loads-download_binary :
      (arch name : String) → Ensures Any (download_binary env tools disk at arch name) (Loads name)
  unfolding download_binary
  Loads-download_binary arch name =
      Ensures-if (at.download_url arch == "") (pure none) _ (λ e. Loads-none name)
        (λ e.
          Ensures-bind _ _ (Ensures-attempt _ (Ensures-nothing (make_cache env tools disk at)))
            (λ made.
              Ensures-handle made _ _ (λ x. Loads-none name)
                (λ u.
                  Ensures-bind _ _
                    (Ensures-attempt _ (Ensures-nothing (new_temp env tools disk at name)))
                    (λ opened.
                      Ensures-handle opened _ _ (λ x. Ensures-raise _)
                        (λ temp.
                          Ensures-weaken (Loads-load _ name temp) (λ s p. tt) (λ a s l. l))))))

  -- The last step asked for the file, and it is there.
  abbrev pub IsThere : String → World → Type 0
  IsThere path w =
      (log : List Event) × (w.log ≡ setup (is_file path) ∷ log)
      × (disk.file_there (setup (is_file path) ∷ log) ≡ true)

  abbrev Finds : List String → Option String → World → Type 0
  Finds paths r w = (p : String) → r ≡ some p → (contains paths p ≡ true) × IsThere p w

  Asked-file_there :
      (path : String)
      → Ensures Any (file_there env tools disk at path) (λ there w. there ≡ true → IsThere path w)
  unfolding file_there step
  Asked-file_there path = record { at = λ w p a h e. (w.log, refl, ok-injective _ _ h ∙ e) }

  Finds-first_file :
      (paths : List String) → Ensures Any (first_file env tools disk at paths) (Finds paths)
  unfolding first_file
  Finds-first_file [] = Ensures-pure none (λ s h p e. cc)
  Finds-first_file (path ∷ more) = Ensures-bind _ _ (Asked-file_there path) (λ there.
      Ensures-if there (pure (some path)) _
        (λ yes. Ensures-pure (some path) (λ s h p e. here s (h yes) p e))
        (λ no.
          Ensures-weaken (Finds-first_file more) (λ s h. tt)
            (λ r s f p e. (contains-there path p more (f p e).0, (f p e).1))))
    where
      here :
          (s : World)
          → IsThere path s
          → (p : String) → some path ≡ some p
          → (contains (path ∷ more) p ≡ true) × IsThere p s
      here s h p e =
          subst (λ q. (contains (path ∷ more) q ≡ true) × IsThere q s) (some-injective _ _ e)
            (contains-here path more, h)

  -- What stands behind the path: a file at one of the candidates, or the cached download.
  abbrev IsGood : String → String → World → Type 0
  IsGood arch p w =
      ((contains (candidates at arch) p ≡ true) × IsThere p w)
      ⊎ ((p ≡ path_join (cache_dir at) (versioned_name arch)) × IsInstalled p w)

  abbrev pub IsBinary : String → Option String → World → Type 0
  IsBinary arch none w = Unit
  IsBinary arch (some p) w = IsGood arch p w

  IsBinary-found :
      (arch : String) (r : Option String) (w : World)
      → ((p : String) → r ≡ some p → IsGood arch p w)
      → IsBinary arch r w
  IsBinary-found arch none w f = tt
  IsBinary-found arch (some p) w f = f p refl

  IsBinary-or_download :
      (arch : String) (found : Option String)
      → Ensures
          (Finds (candidates at arch) found)
          (or_download env tools disk at arch found)
          (IsBinary arch)
  unfolding or_download
  IsBinary-or_download arch (some path) = Ensures-pure (some path) (λ s h. inl (h path refl))
  IsBinary-or_download arch none =
      Ensures-weaken (Loads-download_binary arch (versioned_name arch)) (λ s h. tt)
        (λ r s l. IsBinary-found arch r s (λ p e. inr (l p e)))

  -- A path that the search for a binary returns is one of the paths where it looks, and the last
  -- step found a file there; or it is the path of the version in the cache, where the last steps
  -- measured the download, found at least 1,000,000 bytes, made it executable and moved it there.
  pub find_local_binary-IsBinary :
      (arch : String)
      → Ensures (λ w. Unit {0}) (find_local_binary env tools disk at arch) (IsBinary arch)
  unfolding find_local_binary
  find_local_binary-IsBinary arch =
      Ensures-bind _ _ (Finds-first_file (candidates at arch)) (IsBinary-or_download arch)
