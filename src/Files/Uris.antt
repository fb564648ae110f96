-- ===== src/Files/Uris.antt =====
-- The names that `create_file_with_random_uri` makes: new, and never those of the daemon's own files.
use vpfs_iroh.Base.{
  ℕ, zero, suc, ◌≤◌, ◌<◌, ◌/◌, ◌%◌, Str, lit, str_eq, none, some, [], ◌∷◌, ◌≡◌, ◌≢◌, refl, sym,
  subst, ◌∙◌, ◌+◌, arith, ltb, Outcome, ok, All, All-append, Option-cases, inl, inr, if-elim, ◌⊎◌,
}
use vpfs_iroh.Files.{File, Disk, update, put_file, hex_digit, hex, create_file_with_random_uri}

-- The code of one of `0` to `9` or `a` to `f`.
abbrev pub IsHex : ℕ → Type 0
IsHex c = ((b'0' ≤ c) × (c ≤ b'9')) ⊎ ((b'a' ≤ c) × (c ≤ b'f'))

hex_digit-IsHex : (n : ℕ) → n < 16 → IsHex (hex_digit n)
hex_digit-IsHex n h =
    if-elim IsHex (ltb n 10) (λ small. inl (ground arith)) (λ large. inr (ground arith))

pub hex-IsHex : (digits n : ℕ) → All IsHex (hex digits n)
unfolding hex
hex-IsHex zero n = tt
hex-IsHex (suc digits) n =
    if-elim (All IsHex) (ltb n 16) (λ last. (hex_digit-IsHex n (ground arith), tt))
      (λ more.
        All-append IsHex (hex digits (n / 16)) (hex_digit (n % 16) ∷ []) (hex-IsHex digits (n / 16))
          (hex_digit-IsHex (n % 16) (omega arith), tt))

not_IsHex-root : ¬ All IsHex (lit "root")
not_IsHex-root h = omega arith

not_IsHex-cache : ¬ All IsHex (lit "cache")
not_IsHex-cache h = omega arith

IsHex-new : (uri : Str) → All IsHex uri → (uri ≢ lit "root") × (uri ≢ lit "cache")
IsHex-new uri h =
    (λ e. not_IsHex-root (subst (All IsHex) e h), λ e. not_IsHex-cache (subst (All IsHex) e h))

module _ (random : ℕ → ℕ) where
  abbrev drawn_uri : Disk → Str
  drawn_uri d = hex 16 (random d.drawn)

  draw_free :
      (fuel : ℕ) (d : Disk)
      → d.files (drawn_uri d) ≡ none
      → create_file_with_random_uri random (suc fuel) d
        ≡ (ok (drawn_uri d), put_file (drawn_uri d) [] (record d { drawn = d.drawn + 1 }))
  unfolding create_file_with_random_uri
  draw_free fuel d free = rw (free, create_file_with_random_uri)

  draw_taken :
      (fuel : ℕ) (d : Disk) (file : File)
      → d.files (drawn_uri d) ≡ some file
      → create_file_with_random_uri random (suc fuel) d
        ≡ create_file_with_random_uri random fuel (record d { drawn = d.drawn + 1 })
  unfolding create_file_with_random_uri
  draw_taken fuel d file taken = rw (taken, create_file_with_random_uri)

  -- When create_file_with_random_uri returns a name, no file had it before, an empty file has it
  -- afterwards, every other file, the lock and the clock are as they were, and the name is
  -- neither root nor cache.
  pub create_file_with_random_uri-new :
      (fuel : ℕ) (d : Disk) {d' : Disk} {uri : Str}
      → create_file_with_random_uri random fuel d ≡ (ok uri, d')
      → (d.files uri ≡ none)
        × (d'.files ≡ update d.files uri (some (record { bytes = []; modified = d.clock })))
        × (uri ≢ lit "root")
        × (uri ≢ lit "cache")
        × (d'.poisoned ≡ d.poisoned)
        × (d'.clock ≡ d.clock)
  create_file_with_random_uri-new zero d h = unfold create_file_with_random_uri in cc
  create_file_with_random_uri-new (suc fuel) d {d'} {uri} h =
      elim (Option-cases (d.files (drawn_uri d))) [
        | inl free ↦
            let made : ◌≡◌ {A = Outcome Str × Disk}
                (ok (drawn_uri d), put_file (drawn_uri d) [] (record d { drawn = d.drawn + 1 }))
                (ok uri, d') =
              sym (draw_free fuel d free) ∙ h in
            let same : drawn_uri d ≡ uri = cc in
            let disk : put_file (drawn_uri d) [] (record d { drawn = d.drawn + 1 }) ≡ d' = cc in
            let (not_root, not_cache) = IsHex-new (drawn_uri d) (hex-IsHex 16 (random d.drawn)) in
            rw (← disk, ← same) (free, refl, not_root, not_cache, refl, refl)
        | inr (file, taken) ↦
            create_file_with_random_uri-new fuel (record d { drawn = d.drawn + 1 })
              (sym (draw_taken fuel d file taken) ∙ h)
      ]

  -- If one of the draws that the fuel allows gives a name that no file has,
  -- create_file_with_random_uri returns a name.
  pub create_file_with_random_uri-total :
      (fuel n : ℕ) (d : Disk)
      → d.files (hex 16 (random (d.drawn + n))) ≡ none
      → n < fuel
      → (uri : Str) × (d' : Disk) × (create_file_with_random_uri random fuel d ≡ (ok uri, d'))
  create_file_with_random_uri-total zero n d free enough = absurd (omega arith)
  create_file_with_random_uri-total (suc fuel) zero d free enough =
      let e : d.drawn + 0 ≡ d.drawn = omega arith in
      let now = subst (λ k. d.files (hex 16 (random k)) ≡ none) e free in
      (
        drawn_uri d,
        put_file (drawn_uri d) [] (record d { drawn = d.drawn + 1 }),
        draw_free fuel d now,
      )
  create_file_with_random_uri-total (suc fuel) (suc n) d free enough =
      elim (Option-cases (d.files (drawn_uri d))) [
        | inl now ↦ (
          drawn_uri d,
          put_file (drawn_uri d) [] (record d { drawn = d.drawn + 1 }),
          draw_free fuel d now,
        )
        | inr (file, taken) ↦
            let e : d.drawn + suc n ≡ d.drawn + 1 + n = omega arith in
            let later = subst (λ k. d.files (hex 16 (random k)) ≡ none) e free in
            rw (draw_taken fuel d file taken) (
              create_file_with_random_uri-total fuel n (record d { drawn = d.drawn + 1 }) later
                (omega arith))
      ]
