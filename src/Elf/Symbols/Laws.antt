-- ===== src/Elf/Symbols/Laws.antt =====
-- What `extract_symbols` of src/elf.rs collects in its pass over the symbols.
use probe_run.Base.{
  ℕ, ◌≡◌, refl, sym, ap, ◌∙◌, Bool, true, false, ◌||◌, Option, none, some, List, [], ◌∷◌, any,
}
use probe_run.Base.Text.{str}
use probe_run.Result.{ok, ok_or, main_missing, ok-injective, >>=-eq-ok}
use probe_run.U32.{Profile}
use probe_run.Elf.ObjectFile.{ObjectFile, Symbol}
use probe_run.Elf.Symbols.{
  Symbols, Scan, start, is_heap_symbol, visit, scan_symbols, reset_range, extract_symbols,
}
use probe_run.Elf.Symbols.Visit.{
  named, later, last_named, clear_all, later_assoc, clear_all-later, Adds, SymbolAdds,
  visit-SymbolAdds, or_false,
}

abbrev AllAdd : List Symbol → Scan → Scan → Type 0
AllAdd symbols =
    Adds (last_named (str "main") symbols) (last_named (str "_SEGGER_RTT") symbols)
      (any (named is_heap_symbol) symbols)

or_assoc : (a b c : Bool) → (a || b) || c ≡ a || (b || c)
or_assoc true b c = refl
or_assoc false b c = refl

AllAdd-cons :
    (symbol : Symbol) (rest : List Symbol) (a b c : Scan)
    → SymbolAdds symbol a b
    → AllAdd rest b c
    → AllAdd (symbol ∷ rest) a c
AllAdd-cons symbol rest a b c (m, r, h) (ms, rs, hs) = (
  ms
      ∙ (rw m (later_assoc (clear_all (last_named (str "main") rest)) _ _))
      ∙ ap (λ o. later o a.main_fn_address)
          (sym (clear_all-later (last_named (str "main") rest) _)),
  rs ∙ (rw r (later_assoc (last_named (str "_SEGGER_RTT") rest) _ _)),
  hs
      ∙ ap (λ u. u || any (named is_heap_symbol) rest) h
      ∙ or_assoc a.program_uses_heap (named is_heap_symbol symbol)
          (any (named is_heap_symbol) rest),
)

scan_symbols-AllAdd :
    (reset : ℕ) (symbols : List Symbol) (scan out : Scan)
    → scan_symbols reset symbols scan ≡ ok out
    → AllAdd symbols scan out
unfolding scan_symbols
scan_symbols-AllAdd reset [] scan out h =
    rw (← ok-injective h) (refl, refl, or_false scan.program_uses_heap)
scan_symbols-AllAdd reset (symbol ∷ rest) scan out h =
    let (next, first, more) = >>=-eq-ok (visit reset symbol scan) _ h in
    AllAdd-cons symbol rest scan next out (visit-SymbolAdds reset symbol scan next first)
      (scan_symbols-AllAdd reset rest next out more)

later-none : (o : Option ℕ) → later o none ≡ o
later-none none = refl
later-none (some a) = refl

ok_or-ok : (o : Option ℕ) (a : ℕ) → ok_or o main_missing ≡ ok a → o ≡ some a
ok_or-ok none a h = cc
ok_or-ok (some b) a h = ap some (ok-injective h)

-- Symbols that are extracted have the address of the last symbol `main`, without its Thumb bit, and
-- the address of the last symbol `_SEGGER_RTT`, if there is one; the heap is taken to be in use
-- exactly if some symbol has the name of one of the allocation functions. Symbols whose names
-- cannot be read do not count.
pub extract_symbols_lem :
    (p : Profile) (elf : ObjectFile) (reset : ℕ) (symbols : Symbols)
    → extract_symbols p elf reset ≡ ok symbols
    → (clear_all (last_named (str "main") elf.symbols) ≡ some symbols.main_fn_address)
      × (symbols.rtt_buffer_address ≡ last_named (str "_SEGGER_RTT") elf.symbols)
      × (symbols.program_uses_heap ≡ any (named is_heap_symbol) elf.symbols)
unfolding extract_symbols
extract_symbols_lem p elf reset symbols h =
    let (scan, scanned, e1) = >>=-eq-ok (scan_symbols reset elf.symbols start) _ h in
    let (main, found, e2) = >>=-eq-ok (ok_or scan.main_fn_address main_missing) _ e1 in
    let (range, located, e3) = >>=-eq-ok (reset_range p reset scan.reset_symbols) _ e2 in
    conclude scan main range (scan_symbols-AllAdd reset elf.symbols start scan scanned)
      (ok_or-ok scan.main_fn_address main found) (ok-injective e3)
  where
    conclude :
        (scan : Scan) (main : ℕ) (range : ℕ × ℕ)
        → AllAdd elf.symbols start scan
        → scan.main_fn_address ≡ some main
        → record {
          main_fn_address = main;
          program_uses_heap = scan.program_uses_heap;
          reset_fn_start = range.0;
          reset_fn_end = range.1;
          rtt_buffer_address = scan.rtt_buffer_address;
        }
          ≡ symbols
        → (clear_all (last_named (str "main") elf.symbols) ≡ some symbols.main_fn_address)
          × (symbols.rtt_buffer_address ≡ last_named (str "_SEGGER_RTT") elf.symbols)
          × (symbols.program_uses_heap ≡ any (named is_heap_symbol) elf.symbols)
    conclude scan main range (m, r, u) found made = (
      sym (later-none (clear_all (last_named (str "main") elf.symbols)))
          ∙ sym m
          ∙ found
          ∙ ap (λ s. some s.main_fn_address) made,
      sym (ap (λ s. s.rtt_buffer_address) made) ∙ r ∙ later-none _,
      sym (ap (λ s. s.program_uses_heap) made) ∙ u,
    )
