-- ===== src/FileManager/Table.antt =====
-- FileManager.cpp: opening and closing change one entry of the table.
use flix.Base.{
  ℕ, ◌+◌, ◌<◌, ◌≤◌, ◌≡◌, ◌≢◌, refl, ◌∙◌, sym, ap, Bool, true, false, Option, none, some, List, [],
  ◌∷◌, ◌++◌, zero, suc, ltb, length, get_or, set, arith, inl, inr, Bool-cases, Option-cases,
  get_or-set_self, get_or-set_ne, get_or-length_le,
}
use flix.Vfs.{value}
use flix.FileManager.{free_entry, open_file, close, get_handle}

module _ {H : Type 0} where
  -- Reading past the table gives the null pointer, so the guard is one of the reads.
  pub get_handle-get_or :
      (fd : ℕ) (files : List (Option H)) → get_handle fd files ≡ get_or files fd none
  unfolding get_handle
  get_handle-get_or fd files = elim (Bool-cases (ltb fd (length files))) [
    | inl e ↦ rw e refl
    | inr e ↦ rw e (sym (get_or-length_le files fd none (ground arith)))
  ]

  -- The descriptor that `open` gives: it was free, and no lower one was.
  pub record Opened (h : H) (files : List (Option H)) (fd : ℕ) (files' : List (Option H))
      : Type 0 where
    pub free : get_handle fd files ≡ none
    pub lowest : (q : ℕ) → q < fd → get_handle q files ≢ none
    pub reads : get_handle fd files' ≡ some h
    pub others : (q : ℕ) → q ≢ fd → get_handle q files' ≡ get_handle q files

  not_null_below :
      (f : H) (fs : List (Option H)) (k : ℕ)
      → ((q : ℕ) → q < k → get_or fs q none ≢ none)
      → (q : ℕ) → q < suc k
      → get_or (some f ∷ fs) q none ≢ none
  not_null_below f fs k low zero l = λ e. cc
  not_null_below f fs k low (suc q) l = low q (omega arith)

  free_entry-some :
      (files : List (Option H)) (i j : ℕ)
      → free_entry files i ≡ some j
      → (k : ℕ) × (j ≡ i + k)
        × (k < length files)
        × (get_or files k none ≡ none)
        × ((q : ℕ) → q < k → get_or files q none ≢ none)
  unfolding free_entry
  free_entry-some [] i j h = cc
  free_entry-some (none ∷ fs) i j h =
      (0, ground (arith, h), omega arith, refl, λ q l. absurd (omega arith))
  free_entry-some (some f ∷ fs) i j h =
      let (k, e, l, f₀, low) = free_entry-some fs (i + 1) j h in
      (suc k, omega (arith, e), omega (arith, l), f₀, not_null_below f fs k low)

  free_entry-none :
      (files : List (Option H)) (i : ℕ)
      → free_entry files i ≡ none
      → (q : ℕ) → q < length files
      → get_or files q none ≢ none
  unfolding free_entry
  free_entry-none [] i h q l = absurd (omega arith)
  free_entry-none (none ∷ fs) i h q l = cc
  free_entry-none (some f ∷ fs) i h zero l = λ e. cc
  free_entry-none (some f ∷ fs) i h (suc q) l = free_entry-none fs (i + 1) h q (omega arith)

  get_or-append_self :
      (fs : List (Option H)) (h : H) → get_or (fs ++ some h ∷ []) (length fs) none ≡ some h
  get_or-append_self [] h = refl
  get_or-append_self (f ∷ fs) h = get_or-append_self fs h

  get_or-append_ne :
      (fs : List (Option H)) (h : H) (q : ℕ)
      → q ≢ length fs
      → get_or (fs ++ some h ∷ []) q none ≡ get_or fs q none
  get_or-append_ne [] h zero ne = absurd (ne refl)
  get_or-append_ne [] h (suc q) ne = refl
  get_or-append_ne (f ∷ fs) h zero ne = refl
  get_or-append_ne (f ∷ fs) h (suc q) ne = get_or-append_ne fs h q (λ e. ne (ap suc e))

  -- The four facts on the reads of the table are those on the handles.
  Opened-reads :
      (h : H) (files : List (Option H)) (fd : ℕ) (files' : List (Option H))
      → get_or files fd none ≡ none
      → ((q : ℕ) → q < fd → get_or files q none ≢ none)
      → get_or files' fd none ≡ some h
      → ((q : ℕ) → q ≢ fd → get_or files' q none ≡ get_or files q none)
      → Opened h files fd files'
  Opened-reads h files fd files' free lowest reads others = record {
    free = get_handle-get_or fd files ∙ free;
    lowest = λ q l e. lowest q l (sym (get_handle-get_or q files) ∙ e);
    reads = get_handle-get_or fd files' ∙ reads;
    others = λ q ne. get_handle-get_or q files' ∙ others q ne ∙ sym (get_handle-get_or q files);
  }

  -- open puts the handle in the lowest free entry, or in a new one behind the last, returns its
  -- number, and changes no other entry.
  pub open_file-Opened :
      (h : H) (files : List (Option H))
      → (fd : ℕ) × (files' : List (Option H)) × (open_file (value h) files ≡ (value fd, files'))
        × Opened h files fd files'
  unfolding open_file
  open_file-Opened h files = elim (Option-cases (free_entry files 0)) [
    | inl e ↦ (
      length files,
      files ++ some h ∷ [],
      rw e refl,
      Opened-reads h files (length files) (files ++ some h ∷ [])
          (get_or-length_le files (length files) none (omega arith)) (free_entry-none files 0 e)
          (get_or-append_self files h) (get_or-append_ne files h),
    )
    | inr (j, e) ↦
        let (k, same, l, free, low) = free_entry-some files 0 j e in
        let at : j ≡ k = omega (arith, same) in
        (
          k,
          set files k (some h),
          rw (e, at) refl,
          Opened-reads h files k (set files k (some h)) free low
              (get_or-set_self files k (some h) none l)
              (λ q ne. get_or-set_ne files k q (some h) none (λ s. ne (sym s))),
        )
  ]

  -- What `close` leaves: the entry is free, if there was one, and the others are as before; without such an
  -- entry the result is -1 and nothing changes.
  pub Closed : ℕ → List (Option H) → Bool × List (Option H) → Type 0
  Closed fd files (true, files') =
      (fd < length files)
      × (get_handle fd files' ≡ none)
      × ((q : ℕ) → q ≢ fd → get_handle q files' ≡ get_handle q files)
  Closed fd files (false, files') = (length files ≤ fd) × (files' ≡ files)

  -- close frees the entry of a descriptor that is in the table and changes no other; for any other
  -- descriptor it returns -1 and changes nothing.
  pub close-Closed : (fd : ℕ) (files : List (Option H)) → Closed fd files (close fd files)
  unfolding close Closed
  close-Closed fd files = elim (Bool-cases (ltb fd (length files))) [
    | inl e ↦ rw e (
      ground arith,
      get_handle-get_or fd (set files fd none) ∙ get_or-set_self files fd none none (ground arith),
      λ q ne.
          get_handle-get_or q (set files fd none)
          ∙ get_or-set_ne files fd q none none (λ s. ne (sym s))
          ∙ sym (get_handle-get_or q files),
    )
    | inr e ↦ rw e (ground arith, refl)
  ]
