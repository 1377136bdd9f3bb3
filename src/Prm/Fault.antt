-- ===== src/Prm/Fault.antt =====
-- A page fault ends with the page in the memory: `prm_thread_func` of vmsim/prm.c for one command.
use vmsim.Prelude.{
  ℕ, zero, suc, ◌<◌, ◌≡◌, refl, true, false, some, none, List, [], ◌∷◌, arith, length, get_or, has,
  ◌∙◌, sym, ap, inl, inr, Option-cases, Bool-cases,
}
use vmsim.Run.{ok, ◌>>=◌}
use vmsim.Types.{success, fail, VirtAddr, page_eq, page_eq_symm, page_eq_refl}
use vmsim.Bytes.Frames.{frame}
use vmsim.Ipt.{Ipt, IptEntry}
use vmsim.Ipt.Chain.{entry}
use vmsim.Ipt.Valid.{
  IsValid, find_page, find_page-eq, find_page-none, find_page-same, find_page-apart,
}
use vmsim.Map.Assoc.{find}
use vmsim.Disk.{disk_get_page}
use vmsim.Disk.Pages.{disk_get_page-frame}
use vmsim.Mmu.{Mmu, mmu_sync_from_backing_page}
use vmsim.Mmu.Valid.{IsMmu, translate-found, frame_below}
use vmsim.Mmu.Sync.{mmu_sync_from_backing_page_lem}
use vmsim.Prm.{Choice, swap_loop, serve}
use vmsim.Prm.Oldest.{candidate_at, get_page_to_swap_lem}
use vmsim.Prm.Swap.{map_page_lem, prm_swap_out_lem}
use vmsim.Mmu.Contents.{page_bytes, stored_at, Keeps, Keeps-trans, Keeps-in_place, Keeps-in}
use vmsim.Prm.Kept.{swap_out-Keeps, map-Keeps, onto-same}

entry_outside : (es : List IptEntry) (i : ℕ) → (entry es i).page_data.valid ≡ true → i < length es
unfolding get_or
entry_outside [] i e = absurd (ground arith)
entry_outside (x ∷ es) zero e = omega arith
entry_outside (x ∷ es) (suc i) e = omega (arith, entry_outside es i e)

module _ {ipt : Ipt} (valid : IsValid ipt) (addr : VirtAddr) where
  -- When no frame is free, the first one holds a page, and not one that the table does not find.
  candidate_when_full :
      ipt.free_pages ≡ []
      → find_page ipt.entries addr ≡ none
      → candidate_at addr ipt.entries 0 ≡ true
  unfolding has
  candidate_when_full full absent =
      let (chains, inv) = valid in
      let on : (entry ipt.entries 0).page_data.valid ≡ true =
        ground (arith, inv.free 0, ap (has 0) full, inv.positive) in
      let miss =
        find_page-none ipt.entries addr 0 absent (omega (arith, inv.entries_size, inv.positive)) in
      ground (arith, on, miss, page_eq_symm addr (entry ipt.entries 0).page_data.addr)

  -- A candidate is found in its frame.
  candidate-found :
      (j : ℕ)
      → candidate_at addr ipt.entries j ≡ true
      → find_page ipt.entries (entry ipt.entries j).page_data.addr ≡ some j
  candidate-found j cand =
      let (chains, inv) = valid in
      let on : (entry ipt.entries j).page_data.valid ≡ true = ground arith in
      find_page-eq inv (entry ipt.entries j).page_data.addr j
        (omega (arith, inv.entries_size, entry_outside ipt.entries j on))
        (ground (arith, page_eq_refl (entry ipt.entries j).page_data.addr))

-- the page has a frame, and the others hold what they held
record HasMapped (pages : List (VirtAddr × ℕ)) (bytes : List ℕ) (mmu mmu' : Mmu) (addr : VirtAddr)
    (i d : ℕ) : Type 0 where
  found : find_page mmu'.mem_ipt.entries addr ≡ some i
  page_size : mmu'.mem.page_size ≡ mmu.mem.page_size
  stats : mmu'.stats ≡ mmu.stats
  own : disk_get_page mmu'.disk d ≡ disk_get_page mmu.disk d
  others : (b : VirtAddr) → page_eq addr b ≡ false → Keeps pages mmu bytes mmu' bytes b

-- the page has a frame with the bytes of its page of the disk, and every page holds what it held
pub record HasServed (pages : List (VirtAddr × ℕ)) (mmu : Mmu) (bytes : List ℕ) (mmu' : Mmu)
    (bytes' : List ℕ) (addr : VirtAddr) (i d : ℕ) : Type 0 where
  pub found : find_page mmu'.mem_ipt.entries addr ≡ some i
  pub page_size : mmu'.mem.page_size ≡ mmu.mem.page_size
  pub stats : mmu'.stats ≡ mmu.stats
  pub loaded : disk_get_page mmu.disk d ≡ ok (success, some (frame bytes' mmu.mem.page_size i))
  pub own : disk_get_page mmu'.disk d ≡ disk_get_page mmu.disk d
  pub keeps : (b : VirtAddr) → Keeps pages mmu bytes mmu' bytes' b

swap_loop-done :
    (c : Choice) (mmu : Mmu) (addr : VirtAddr) → swap_loop 1 c success mmu addr ≡ ok (c, mmu)
unfolding swap_loop
swap_loop-done c mmu addr = refl

module _ {mmu : Mmu} {bytes stored : List ℕ} {pages : List (VirtAddr × ℕ)}
    (is : IsMmu mmu bytes stored pages) (c : Choice) (addr : VirtAddr) (d : ℕ)
    (absent : find_page mmu.mem_ipt.entries addr ≡ none)
    (onto : find page_eq pages addr ≡ some d) where
  -- With no free frame, one round of the loop swaps a page out and maps the page.
  swap_round :
      mmu.mem_ipt.free_pages ≡ []
      → (c' : Choice) × (mmu' : Mmu) × (stored' : List ℕ) × (i : ℕ) × (swap_loop 1 c fail mmu addr
          ≡ ok (c', mmu'))
        × IsMmu mmu' bytes stored' pages
        × HasMapped pages bytes mmu mmu' addr i d
  unfolding swap_loop
  swap_round full =
      let (j, c', chosen, cand, _, _) =
        get_page_to_swap_lem c mmu addr 0 (candidate_when_full is.table addr full absent) in
      let victim = (entry mmu.mem_ipt.entries j).page_data.addr in
      let found = candidate-found is.table addr j cand in
      let (dv, onto_v) = is.backed victim j found in
      let (ipt₁, disk₁, stored₁, out, removed, is₁, dirty, clean, others) =
        prm_swap_out_lem is victim j dv found onto_v in
      let miss : page_eq victim addr ≡ false = ground (arith, page_eq_symm addr victim) in
      let absent₁ : find_page ipt₁.entries addr ≡ none = removed.finds addr ∙ rw miss absent in
      elim (map_page_lem is₁ addr d absent₁ onto) [
        | inl (empty, _) ↦ absurd (ground (arith, empty, removed.freed, full))
        | inr (i, ipt₂, mapped, added, is₂) ↦
            let found₂ : find_page ipt₂.entries addr ≡ some i =
              added.finds addr ∙ rw (page_eq_refl addr) refl in
            (
              c',
              record mmu { mem_ipt = ipt₂; disk = disk₁ },
              stored₁,
              i,
              rw (chosen, out, mapped, translate-found is₂ addr i found₂) refl,
              is₂,
              record {
                found = found₂;
                page_size = refl;
                stats = refl;
                own =
                    others d (is.on_disk addr d onto).0
                      (λ e. cc (sym miss ∙ is.apart victim addr d (onto_v ∙ ap some e) onto));
                others = λ b other.
                    Keeps-trans
                      (swap_out-Keeps is victim dv onto_v j found removed dirty clean others b)
                      (map-Keeps is₁ addr d onto i added b other);
              },
            )
      ]

  -- The page is mapped, by a round of the loop if there is no free frame.
  swap_in :
      (c' : Choice) × (mmu' : Mmu) × (stored' : List ℕ) × (i : ℕ) × ((serve c mmu addr)
        ≡ (do (_, mmu₃) ← mmu_sync_from_backing_page mmu' addr; ok (c', mmu₃)))
      × IsMmu mmu' bytes stored' pages
      × HasMapped pages bytes mmu mmu' addr i d
  unfolding serve
  swap_in = elim (map_page_lem is addr d absent onto) [
    | inl (full, run) ↦
        let (c', mmu', stored', i, round, is', mapped) = swap_round full in
        (c', mmu', stored', i, rw (run, round) refl, is', mapped)
    | inr (i, ipt', run, added, is') ↦ (
      c,
      record mmu { mem_ipt = ipt' },
      stored,
      i,
      rw (run, swap_loop-done c (record mmu { mem_ipt = ipt' }) addr) refl,
      is',
      record {
        found = added.finds addr ∙ rw (page_eq_refl addr) refl;
        page_size = refl;
        stats = refl;
        own = refl;
        others = map-Keeps is addr d onto i added;
      },
    )
  ]

  absent-same : (b : VirtAddr) → page_eq addr b ≡ true → find_page mmu.mem_ipt.entries b ≡ none
  absent-same b same = elim (Option-cases (find_page mmu.mem_ipt.entries b)) [
    | inl none_b ↦ none_b
    | inr (k, found) ↦
        cc (sym absent ∙ find_page-same b addr is.table (page_eq_symm b addr ∙ same) found)
  ]

  pub serve-HasServed :
      (c' : Choice) × (mmu' : Mmu) × (bytes' stored' : List ℕ) × (i : ℕ) × (serve c mmu addr
        ≡ ok (c', mmu'))
      × IsMmu mmu' bytes' stored' pages
      × HasServed pages mmu bytes mmu' bytes' addr i d
  serve-HasServed =
      let (c', mmu₂, stored', i, run, is₂, mapped) = swap_in in
      let (bytes', loaded, is₃, same, frames) =
        mmu_sync_from_backing_page_lem is₂ addr i d mapped.found onto in
      let (lt, alloc) = is₂.on_disk addr d onto in
      let reads : disk_get_page mmu₂.disk d
          ≡ ok (success, some (frame bytes' mmu.mem.page_size i)) =
        disk_get_page-frame is₂.disk d lt
        ∙ rw alloc (
            ap (λ n. ok (success, some (frame stored' n d))) is₂.same_size
            ∙ ap (λ l. ok (success, some l)) (sym same)
            ∙ ap (λ n. ok (success, some (frame bytes' n i))) mapped.page_size) in
      (
        c',
        record mmu₂ { mem = record (mmu₂.mem) { bytes = some bytes' } },
        bytes',
        stored',
        i,
        run ∙ rw loaded refl,
        is₃,
        record {
          found = mapped.found;
          page_size = mapped.page_size;
          stats = mapped.stats;
          loaded = sym mapped.own ∙ reads;
          own = mapped.own;
          keeps = λ b. elim (Bool-cases (page_eq addr b)) [
            | inl this ↦
                let onto_b = onto-same is addr d onto b this in
                Keeps-in i (absent-same b this) (find_page-same addr b is₂.table this mapped.found)
                  (ap (λ n. frame bytes' n i) mapped.page_size
                    ∙ sym (ap (stored_at mmu.disk) onto_b ∙ ap page_bytes (sym mapped.own ∙ reads)))
                  (ap (stored_at mmu₂.disk) onto_b
                    ∙ ap page_bytes mapped.own
                    ∙ sym (ap (stored_at mmu.disk) onto_b))
            | inr other ↦ Keeps-trans (mapped.others b other) (
                Keeps-in_place refl
                  (λ k at_k.
                    let apart =
                      find_page-apart mmu₂.mem_ipt.entries addr b other mapped.found at_k in
                    (refl, frames k (frame_below is₂ b k at_k) (ground arith)))
                  refl)
          ];
        },
      )

  -- Under the invariant of the MMU, in which the memory and the disk have less than 2 ^ 31 bytes,
  -- serving a page fault for a page that has a page on the disk but no frame ends with one round of
  -- swapping at most: the page has a frame that holds what its page of the disk held before and
  -- still holds, and the invariant is kept.
  pub serve_lem :
      (c' : Choice) × (mmu' : Mmu) × (bytes' stored' : List ℕ) × (i : ℕ) × (serve c mmu addr
        ≡ ok (c', mmu'))
      × IsMmu mmu' bytes' stored' pages
      × (find_page mmu'.mem_ipt.entries addr ≡ some i)
      × (disk_get_page mmu.disk d ≡ ok (success, some (frame bytes' mmu.mem.page_size i)))
      × (disk_get_page mmu'.disk d ≡ disk_get_page mmu.disk d)
  serve_lem =
      let (c', mmu', bytes', stored', i, run, is', served) = serve-HasServed in
      (c', mmu', bytes', stored', i, run, is', served.found, served.loaded, served.own)
