-- ===== src/Replacer/Tests.antt =====
-- Three pages, of which page 2 is pinned and page 7 was removed.
use simple_duck_dbms.Base.{ℕ, ◌≡◌, refl, List, [], ◌∷◌, Option, some, ◌==◌, if◌then◌else◌}
use simple_duck_dbms.Replacer.{no_pages, erase, remove, record_page, find_from, find_lru}
use simple_duck_dbms.Replacer.Order.{pages}
use simple_duck_dbms.Replacer.Recent.{
  Call, recorded, removed, run, by_use, Victim, pages-run, find_lru-Victim,
}

abbrev three_pages : List Call
three_pages =
    recorded 4 ∷ (removed 7 ∷ (recorded 1 ∷ (recorded 7 ∷ (recorded 2 ∷ (recorded 4 ∷ [])))))

abbrev own_frame : ℕ → Option ℕ
own_frame page_id = some page_id

abbrev second_pinned : ℕ → ℕ
second_pinned frame_id = if frame_id == 2 then 1 else 0

least_is_one : find_lru own_frame second_pinned (run three_pages) ≡ 1
unfolding find_lru run record_page remove no_pages erase find_from
least_is_one = refl

pages-run_example : pages (run three_pages).mru_pages ≡ by_use three_pages
pages-run_example = pages-run three_pages

find_lru-Victim_example :
    Victim own_frame second_pinned
      (by_use three_pages)
      (find_lru own_frame second_pinned (run three_pages))
find_lru-Victim_example = find_lru-Victim own_frame second_pinned three_pages
