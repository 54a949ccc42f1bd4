-- ===== src/Userland/UserPage.antt =====
-- The mapping of one page of a process in src/userland.rs.
use apogee.Base.{
  ℕ, ◌%◌, ◌≡◌, ◌≢◌, refl, sym, ◌∙◌, inl, inr, true, false, Option, none, some, ◌==◌, ==_iff,
  Bool-cases, Option-cases, subst, arith,
}
use apogee.Keyboard.{Crates}
use apogee.Paging.{Paging}
use apogee.Userland.{user_flags, CreateError, Setup, map_user_page}

module _ (p : Paging) (c : Crates) where
  -- The page at `address` was not mapped and is, and nothing else changes.
  pub record HasMapped (s u : Setup p c) (address : ℕ) : Type 0 where
    pub free : p.translate_page s.mapper address ≡ none
    pub frame : ℕ
    pub mapped : p.translate_page u.mapper address ≡ some frame
    pub others :
        (page : ℕ)
        → page ≢ address
        → p.translate_page u.mapper page ≡ p.translate_page s.mapper page
    pub bytes : u.bytes ≡ s.bytes
    pub machine : u.machine ≡ s.machine

  -- No page changes, and nothing but frames is lost.
  pub record HasRefused (s u : Setup p c) : Type 0 where
    pub same : (page : ℕ) → p.translate_page u.mapper page ≡ p.translate_page s.mapper page
    pub bytes : u.bytes ≡ s.bytes
    pub machine : u.machine ≡ s.machine

  abbrev pub PageOutcome : Setup p c → ℕ → Setup p c × Option CreateError → Type 0
  PageOutcome s address (u, none) = HasMapped s u address
  PageOutcome s address (u, some e) = HasRefused s u

  pub map_user_page-PageOutcome :
      (s : Setup p c) (address : ℕ) (no_frame not_mapped : CreateError)
      → address % 4096 ≡ 0
      → PageOutcome s address (map_user_page p c s address no_frame not_mapped)
  unfolding map_user_page
  map_user_page-PageOutcome s address no_frame not_mapped h =
      let frames : p.Frames = (p.allocate_frame s.frames).0 in
      let page : p.containing_address address ≡ address =
        p.containing_address_lem address ∙ omega arith in
      elim (Option-cases (p.allocate_frame s.frames).1) [
        | inl exhausted ↦
            rw (exhausted, map_user_page)
              (record { same = λ x. refl; bytes = refl; machine = refl })
        | inr (frame, got) ↦
            elim (Bool-cases (p.map_to s.mapper address frame user_flags user_flags frames).done) [
              | inl done ↦
                  rw (got, map_user_page, page, done)
                    (rw page (record {
                      free = not_mapped_before frame done;
                      frame = frame;
                      mapped =
                          p.translate_page-map_to s.mapper address frame user_flags user_flags
                            frames done;
                      others = p.map_to_other s.mapper address frame user_flags user_flags frames;
                      bytes = refl;
                      machine = refl;
                    }))
              | inr refused ↦
                  rw (got, map_user_page, page, refused)
                    (rw page
                      (record { same = same_page frame refused; bytes = refl; machine = refl }))
            ]
      ]
    where
      not_mapped_before :
          (frame : ℕ)
          → (p.map_to s.mapper address frame user_flags user_flags
              (p.allocate_frame s.frames).0).done
            ≡ true
          → p.translate_page s.mapper address ≡ none
      not_mapped_before frame done = elim (Option-cases (p.translate_page s.mapper address)) [
        | inl free ↦ free
        | inr (old, taken) ↦ absurd (
            ground (
              arith,
              p.map_to-mapped s.mapper address frame user_flags user_flags
                  (p.allocate_frame s.frames).0 (λ e. absurd (ground arith)),
            ))
      ]

      same_page :
          (frame : ℕ)
          → (p.map_to s.mapper address frame user_flags user_flags
              (p.allocate_frame s.frames).0).done
            ≡ false
          → (x : ℕ)
          → p.translate_page
              (p.map_to s.mapper address frame user_flags user_flags
                (p.allocate_frame s.frames).0).mapper
              x
            ≡ p.translate_page s.mapper x
      same_page frame refused x = elim (Bool-cases (x == address)) [
        | inl same ↦
            subst
              (λ (y : ℕ).
                p.translate_page
                  (p.map_to s.mapper address frame user_flags user_flags
                    (p.allocate_frame s.frames).0).mapper
                  y
                ≡ p.translate_page s.mapper y)
              (sym ((==_iff x address).0 same))
              (p.map_to_failed s.mapper address frame user_flags user_flags _ refused)
        | inr apart ↦
            p.map_to_other s.mapper address frame user_flags user_flags _ x
              (λ e. absurd (ground arith))
      ]
