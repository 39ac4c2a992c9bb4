-- ===== src/Kernel/Paging/View.antt =====
-- What the pages of the directories are, and what a write to one page changes.
use grapes.Prelude.{ℕ, ◌/◌, ◌≡◌, ◌≢◌, ◌<◌, Bool, ◌&&◌, ◌==◌, if◌then◌else◌, arith}
use grapes.Prelude.Pointers.{Ptr, null}
use grapes.Kernel.Paging.{Page, Paging, zero_page, table_index, page_index, kernel_tables, set_page}

-- The page of an address in a directory; without a page table it is a cleared one.
abbrev pub entry : Ptr → ℕ → Paging → Page
entry pd a s =
    if s.tables pd (table_index a) == null
    then zero_page
    else s.pages (s.tables pd (table_index a)) (page_index a)

-- the addresses outside the kernel's part
abbrev pub user_end : ℕ
user_end = 0xE0000000

-- Every page table stands at one index, and, outside the kernel's part, in one directory.
abbrev pub Apart : (Ptr → ℕ → Ptr) → Type 0
Apart tables =
    (pd pd' : Ptr) (i j : ℕ)
    → tables pd i ≢ null
    → tables pd i ≡ tables pd' j
    → (i ≡ j) × (i < kernel_tables → pd ≡ pd')

abbrev pub Separate : Paging → Type 0
Separate s = Apart s.tables

abbrev pub same_page : ℕ → ℕ → Bool
same_page a b = a / 0x1000 == b / 0x1000

-- A write to the page of an address changes that page and no other.
pub entry-set_page :
    (pd pd' : Ptr) (a b : ℕ) (p : Page) (s : Paging)
    → Separate s
    → a < user_end
    → s.tables pd (table_index a) ≢ null
    → entry pd' b (set_page (s.tables pd (table_index a)) (page_index a) p s)
      ≡ (if (pd == pd') && same_page a b then p else entry pd' b s)
entry-set_page pd pd' a b p s sep low there =
    ground (arith, sep pd pd' (table_index a) (table_index b), there)
