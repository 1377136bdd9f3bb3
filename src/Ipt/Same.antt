-- ===== src/Ipt/Same.antt =====
-- Changes of the page data of vmsim/ipt.c that leave the table's links, pages and valid bits alone.
use vmsim.Prelude.{ℕ, ◌≡◌, none, List, length, get_or, ◌∙◌, sym}
use vmsim.Types.{VirtAddr}
use vmsim.Ipt.{Ipt}
use vmsim.Ipt.Chain.{entry, IsChain-frame}
use vmsim.Ipt.Valid.{IptInv, IsValid, find_page, find_page-congr, valid_at, addr_at}

-- two tables with the same links, pages and valid bits in every slot, and the same lists besides
pub record SameTable (ipt ipt' : Ipt) : Type 0 where
  pub len : length ipt'.entries ≡ length ipt.entries
  pub hat : ipt'.hat ≡ ipt.hat
  pub size : ipt'.size ≡ ipt.size
  pub free : ipt'.free_pages ≡ ipt.free_pages
  pub next : (j : ℕ) → (entry ipt'.entries j).next ≡ (entry ipt.entries j).next
  pub prev : (j : ℕ) → (entry ipt'.entries j).prev ≡ (entry ipt.entries j).prev
  pub valid : (j : ℕ) → valid_at ipt'.entries j ≡ valid_at ipt.entries j
  pub addr : (j : ℕ) → addr_at ipt'.entries j ≡ addr_at ipt.entries j

module _ {ipt ipt' : Ipt} (same : SameTable ipt ipt') where
  SameTable-IptInv : {chains : ℕ → List ℕ} → IptInv ipt chains → IptInv ipt' chains
  SameTable-IptInv {chains} inv = record {
    positive = rw same.size inv.positive;
    entries_size = same.len ∙ inv.entries_size ∙ sym same.size;
    hat_size = rw (same.hat, same.size) inv.hat_size;
    linked = λ h lt. rw same.hat (
        IsChain-frame ipt.entries ipt'.entries none (get_or ipt.hat h none) (chains h) same.len
          (λ j m. (same.next j, same.prev j)) (inv.linked h (rw same.size at lt)));
    members =
        λ h j lt. rw (same.size, same.valid j, same.addr j) (inv.members h j (rw same.size at lt));
    once = λ h lt. inv.once h (rw same.size at lt);
    free = λ j. rw (same.free, same.size, same.valid j) (inv.free j);
    free_once = rw same.free inv.free_once;
    unique = λ j k lj lk vj vk e.
        inv.unique j k (rw same.size at lj) (rw same.size at lk) (sym (same.valid j) ∙ vj)
          (sym (same.valid k) ∙ vk) (rw (← same.addr j, ← same.addr k) e);
  }

  pub SameTable-IsValid : IsValid ipt → IsValid ipt'
  SameTable-IsValid (chains, inv) = (chains, SameTable-IptInv inv)

  pub SameTable-find_page :
      IsValid ipt → (b : VirtAddr) → find_page ipt'.entries b ≡ find_page ipt.entries b
  SameTable-find_page (chains, inv) b =
      find_page-congr (SameTable-IptInv inv) ipt.entries b (inv.entries_size ∙ sym same.size)
        λ j lt. rw (same.valid j, same.addr j)

pub SameTable-trans : {a b c : Ipt} → SameTable a b → SameTable b c → SameTable a c
SameTable-trans p q = record {
  len = q.len ∙ p.len;
  hat = q.hat ∙ p.hat;
  size = q.size ∙ p.size;
  free = q.free ∙ p.free;
  next = λ j. q.next j ∙ p.next j;
  prev = λ j. q.prev j ∙ p.prev j;
  valid = λ j. q.valid j ∙ p.valid j;
  addr = λ j. q.addr j ∙ p.addr j;
}
