-- ===== src/Tests/PcbTest.antt =====
-- util/pcb_util.c on an address near the end of a page and on a table of two processes.
use vmsim.Prelude.{
  ℕ, ◌+◌, ◌*◌, ◌≡◌, refl, ◌<◌, true, false, ◌||◌, some, List, [], ◌∷◌, ◌++◌, arith, set,
}
use vmsim.Run.{ok, fault, bad_access}
use vmsim.Types.{VirtAddr, success, not_found}
use vmsim.Pcb.{ProcCont, Post, fc_del, zero_process, compose_mail}
use vmsim.Pcb.Sim.{advance_virt_addr, Memory}
use vmsim.Pcb.Advance.{Carried, advance_virt_addr_lem}
use vmsim.Pcb.Mail.{process_at, compose_mail_lem}

abbrev near_end : VirtAddr
near_end = record { pid = 1; page = 3; offset = 6 }

advance_virt_addr_lem_example :
    (q : ℕ) × (addr' : VirtAddr) × (advance_virt_addr near_end 13 8 ≡ ok addr')
    × Carried near_end addr' 8 (6 + 13) q
advance_virt_addr_lem_example =
    advance_virt_addr_lem near_end 13 8 (omega arith) (omega arith) (omega arith)

abbrev pub one_alive : ProcCont
one_alive = record {
  processes = record zero_process { mail_box = some [] } ∷ record zero_process { junk = true } ∷ [];
  max_num_of_proc = 2;
  prc_blk_size = 2;
}

abbrev stop : Post
stop = record { func = fc_del; args = [] }

compose_mail_lem_example :
    (2 < 0 → compose_mail one_alive 0 stop ≡ ok (not_found, one_alive))
    × (◌≡◌ {A = ℕ} 0 2 → compose_mail one_alive 0 stop ≡ fault bad_access)
    × (0 < 2
        → ((process_at one_alive 0).junk || (process_at one_alive 0).del) ≡ true
        → compose_mail one_alive 0 stop ≡ ok (not_found, one_alive))
    × (0 < 2
        → ((process_at one_alive 0).junk || (process_at one_alive 0).del) ≡ false
        → (mail : List Post) → (process_at one_alive 0).mail_box ≡ some mail
        → compose_mail one_alive 0 stop
          ≡ ok (
            success,
            record one_alive {
              processes =
                  set one_alive.processes 0
                    (record (process_at one_alive 0) { mail_box = some (mail ++ stop ∷ []) });
            },
          ))
compose_mail_lem_example = compose_mail_lem one_alive 0 stop refl

abbrev shown_page : VirtAddr → ℕ
shown_page a = a.page * 10 + a.offset

abbrev pub constant_memory : Memory (Unit {0})
constant_memory = record {
  page_size = 8;
  malloc_ok = λ n. true;
  read = λ w a. ok (success, shown_page a, w);
  write = λ w a b. ok (success, w);
}
