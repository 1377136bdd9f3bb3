-- ===== src/Ui/Line.antt =====
-- vmsim/ui_app.c: a request that is typed as a line is the request that is sent.
use vmsim.Prelude.{
  ℕ, suc, ◌+◌, ◌<◌, ◌^◌, ◌≡◌, refl, true, false, some, List, [], ◌∷◌, ◌==◌, arith, length, ap, ◌∙◌,
  length-append,
}
use vmsim.Run.{ok, ◌>>=◌}
use vmsim.Types.{is_success}
use vmsim.Text.{strtok}
use vmsim.Text.Decimal.{
  decimal, IsWord, decimal-IsWord, scan_unsigned-decimal, spaced, strtok-spaced,
}
use vmsim.Mmu.{Mmu}
use vmsim.Pcb.{ProcCont}
use vmsim.App.{AppData}
use vmsim.App.Request.{
  Request, read, loop_read, read_to_file, loop_read_to_file, write, loop_write, send,
}
use vmsim.Ui.{
  UiCmd, Answer, when_ready, post_command, params_loop, do_read, read_with, do_loop_read,
  loop_read_with, do_read_to_file, read_to_file_with, do_loop_read_to_file, loop_read_to_file_with,
  do_write, write_with, do_loop_write, loop_write_with, loop_write_loop,
}

-- the words that the user types for a request
unfoldable pub words_of : ℕ → ℕ → Request → List (List ℕ)
words_of vaddr id (read amount) = decimal vaddr ∷ decimal id ∷ decimal amount ∷ []
words_of vaddr id (loop_read off amount) =
    decimal vaddr ∷ decimal id ∷ decimal off ∷ decimal amount ∷ []
words_of vaddr id (read_to_file amount file) =
    decimal vaddr ∷ decimal id ∷ decimal amount ∷ file ∷ []
words_of vaddr id (loop_read_to_file off amount file) =
    decimal vaddr ∷ decimal id ∷ decimal off ∷ decimal amount ∷ file ∷ []
words_of vaddr id (write s) = decimal vaddr ∷ decimal id ∷ s ∷ []
words_of vaddr id (loop_write c off amount) =
    decimal vaddr ∷ decimal id ∷ (c ∷ []) ∷ decimal off ∷ decimal amount ∷ []

-- the function of ui_app.c that serves a request
unfoldable pub do_request : Request → UiCmd → AppData → Answer
do_request (read amount) = do_read
do_request (loop_read off amount) = do_loop_read
do_request (read_to_file amount file) = do_read_to_file
do_request (loop_read_to_file off amount file) = do_loop_read_to_file
do_request (write s) = do_write
do_request (loop_write c off amount) = do_loop_write

-- the numbers fit an `unsigned`, and the texts are words
abbrev pub IsTypeable : Request → Type 0
IsTypeable (read amount) = amount < 2 ^ 32
IsTypeable (loop_read off amount) = (off < 2 ^ 32) × (amount < 2 ^ 32)
IsTypeable (read_to_file amount file) = (amount < 2 ^ 32) × IsWord file
IsTypeable (loop_read_to_file off amount file) = (off < 2 ^ 32) × (amount < 2 ^ 32) × IsWord file
IsTypeable (write s) = IsWord s
IsTypeable (loop_write c off amount) = IsWord (c ∷ []) × (off < 2 ^ 32) × (amount < 2 ^ 32)

-- one more number that the loop takes
params_loop-decimal :
    (left n : ℕ) (ws : List (List ℕ))
    → n < 2 ^ 32
    → params_loop (suc left) (strtok (spaced (decimal n ∷ ws)))
      ≡ (n ∷ (params_loop left (strtok (spaced ws))).0, (params_loop left (strtok (spaced ws))).1)
unfolding params_loop
params_loop-decimal left n ws lt =
    rw (strtok-spaced (decimal n) ws (decimal-IsWord n), scan_unsigned-decimal n lt, params_loop)
      refl

-- numbers that fit an `unsigned`
abbrev AreSmall : List ℕ → Type 0
AreSmall [] = Unit
AreSmall (n ∷ ns) = (n < 2 ^ 32) × AreSmall ns

abbrev decimals : List ℕ → List (List ℕ) → List (List ℕ)
decimals [] ws = ws
decimals (n ∷ ns) ws = decimal n ∷ decimals ns ws

-- the loop takes as many numbers as it may, and stops at the next token
params_loop-decimals :
    (ns : List ℕ) (ws : List (List ℕ))
    → AreSmall ns
    → params_loop (length ns) (strtok (spaced (decimals ns ws))) ≡ (ns, strtok (spaced ws))
unfolding params_loop
params_loop-decimals [] ws h = refl
params_loop-decimals (n ∷ ns) ws h =
    params_loop-decimal (length ns) n (decimals ns ws) h.0
    ∙ rw (params_loop-decimals ns ws h.1) refl

loop_write_loop-decimal :
    (left count n : ℕ) (ws : List (List ℕ))
    → (count == 2) ≡ false
    → n < 2 ^ 32
    → loop_write_loop (suc left) count (strtok (spaced (decimal n ∷ ws)))
      ≡ n ∷ loop_write_loop left (count + 1) (strtok (spaced ws))
unfolding loop_write_loop
loop_write_loop-decimal left count n ws e lt =
    rw
      (
        strtok-spaced (decimal n) ws (decimal-IsWord n),
        scan_unsigned-decimal n lt,
        loop_write_loop,
        e,
      )
      refl

loop_write_loop-char :
    (left c : ℕ) (ws : List (List ℕ))
    → IsWord (c ∷ [])
    → loop_write_loop (suc left) 2 (strtok (spaced ((c ∷ []) ∷ ws)))
      ≡ c ∷ loop_write_loop left 3 (strtok (spaced ws))
unfolding loop_write_loop
loop_write_loop-char left c ws is = rw (strtok-spaced (c ∷ []) ws is) refl

loop_write_loop-words :
    (vaddr id c off amount : ℕ)
    → vaddr < 2 ^ 32
    → id < 2 ^ 32
    → IsTypeable (loop_write c off amount)
    → loop_write_loop 5 0 (strtok (spaced (words_of vaddr id (loop_write c off amount))))
      ≡ vaddr ∷ id ∷ c ∷ off ∷ amount ∷ []
unfolding words_of loop_write_loop
loop_write_loop-words vaddr id c off amount a b h =
    loop_write_loop-decimal 4 0 vaddr _ refl a
    ∙ ap (λ xs. vaddr ∷ xs)
        (loop_write_loop-decimal 3 1 id _ refl b
          ∙ ap (λ xs. id ∷ xs)
              (loop_write_loop-char 2 c _ h.0
                ∙ ap (λ xs. c ∷ xs)
                    (loop_write_loop-decimal 1 3 off _ refl h.1
                      ∙ ap (λ xs. off ∷ xs) (loop_write_loop-decimal 0 4 amount [] refl h.2))))

spaced-filled : (w : List ℕ) (ws : List (List ℕ)) → IsWord w → 0 < length (spaced (w ∷ ws))
unfolding spaced
spaced-filled w [] is = is.filled
spaced-filled w (v ∷ ws) is = omega (arith, is.filled, length-append w (b' ' ∷ spaced (v ∷ ws)))

when_ready-filled :
    (app : AppData) (command w : List ℕ) (ws : List (List ℕ)) (go : Answer)
    → app.initialized ≡ true
    → IsWord w
    → when_ready (record { command = command; param = spaced (w ∷ ws) }) app go ≡ go
unfolding when_ready
when_ready-filled app command w ws go ready is = rw ready (ground (arith, spaced-filled w ws is))

module _ (app : AppData) (cont : ProcCont) (mmu : Mmu) (ready : app.initialized ≡ true)
    (held : app.proc_cont ≡ some (cont, mmu)) where
  -- The handler of a typed line sends the request that the line stands for.
  pub do_request-send :
      (command : List ℕ) (vaddr id : ℕ) (r : Request)
      → vaddr < 2 ^ 32
      → id < 2 ^ 32
      → IsTypeable r
      → do_request r (record { command = command; param = spaced (words_of vaddr id r) }) app ≡ (do
        (code, cont') ← send mmu.mem.page_size cont vaddr id r
        ok (is_success code, record app { proc_cont = some (cont', mmu) }))
  unfolding do_request words_of do_read do_loop_read do_read_to_file do_loop_read_to_file do_write
      do_loop_write read_with loop_read_with read_to_file_with loop_read_to_file_with write_with
      loop_write_with post_command send
  do_request-send command vaddr id (read amount) a b h =
      rw
        (
          when_ready-filled app command (decimal vaddr) (decimal id ∷ decimal amount ∷ []) _ ready
              (decimal-IsWord vaddr),
          params_loop-decimals (vaddr ∷ id ∷ amount ∷ []) [] (a, (b, (h, tt))),
          held,
        )
        refl
  do_request-send command vaddr id (loop_read off amount) a b h =
      rw
        (
          when_ready-filled app command (decimal vaddr)
              (decimal id ∷ decimal off ∷ decimal amount ∷ []) _ ready (decimal-IsWord vaddr),
          params_loop-decimals (vaddr ∷ id ∷ off ∷ amount ∷ []) ([]) (a, (b, (h.0, (h.1, tt)))),
          held,
        )
        refl
  do_request-send command vaddr id (read_to_file amount file) a b h =
      rw
        (
          when_ready-filled app command (decimal vaddr) (decimal id ∷ decimal amount ∷ file ∷ []) _
              ready (decimal-IsWord vaddr),
          params_loop-decimals (vaddr ∷ id ∷ amount ∷ []) (file ∷ []) (a, (b, (h.0, tt))),
          strtok-spaced file [] h.1,
          held,
        )
        refl
  do_request-send command vaddr id (loop_read_to_file off amount file) a b h =
      rw
        (
          when_ready-filled app command (decimal vaddr)
              (decimal id ∷ decimal off ∷ decimal amount ∷ file ∷ []) _ ready
              (decimal-IsWord vaddr),
          params_loop-decimals (vaddr ∷ id ∷ off ∷ amount ∷ []) (file ∷ [])
              (a, (b, (h.0, (h.1, tt)))),
          strtok-spaced file [] h.2,
          held,
        )
        refl
  do_request-send command vaddr id (write s) a b h =
      rw
        (
          when_ready-filled app command (decimal vaddr) (decimal id ∷ s ∷ []) _ ready
              (decimal-IsWord vaddr),
          params_loop-decimals (vaddr ∷ id ∷ []) (s ∷ []) (a, (b, tt)),
          strtok-spaced s [] h,
          held,
        )
        refl
  do_request-send command vaddr id (loop_write c off amount) a b h =
      rw
        (
          when_ready-filled app command (decimal vaddr)
              (decimal id ∷ (c ∷ []) ∷ decimal off ∷ decimal amount ∷ []) _ ready
              (decimal-IsWord vaddr),
          loop_write_loop-words vaddr id c off amount a b h,
          held,
        )
        refl
