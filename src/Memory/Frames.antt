-- ===== src/Memory/Frames.antt =====
-- The flattened sequence of usable frames that src/memory.rs describes.
use apogee.Base.{
  ℕ, zero, suc, ◌+◌, ◌-◌, ◌*◌, ◌/◌, ◌%◌, ◌^◌, ◌≤◌, ◌<◌, ◌≡◌, refl, sym, ap, ◌∙◌, Bool, List, [],
  ◌∷◌, ◌++◌, none, some, true, false, if◌then◌else◌, get_elem?, length, sub64, All, arith,
}
use apogee.Memory.{MemoryRegion, select, frame_count}

-- The frames of a region that starts at `start`, from number `offset` on.
abbrev pub region_frames : ℕ → ℕ → ℕ → List ℕ
region_frames start offset zero = []
region_frames start offset (suc left) =
    (start + offset * 4096) ∷ region_frames start (suc offset) left

abbrev pub usable_regions : List MemoryRegion → List MemoryRegion
usable_regions [] = []
usable_regions (r ∷ rs) = if r.usable then r ∷ usable_regions rs else usable_regions rs

abbrev pub frames : List MemoryRegion → List ℕ
frames [] = []
frames (r ∷ rs) = region_frames r.start_addr 0 (frame_count r) ++ frames rs

-- The frames from a cursor on.
abbrev pub frames_from : List MemoryRegion → ℕ → ℕ → List ℕ
frames_from [] region offset = []
frames_from (r ∷ rs) zero offset =
    region_frames r.start_addr offset (frame_count r - offset) ++ frames rs
frames_from (r ∷ rs) (suc region) offset = frames_from rs region offset

-- The region starts on a frame boundary and ends within the 52 bits of a physical address.
pub record IsRegion (r : MemoryRegion) : Type 0 where
  pub start_aligned : r.start_addr % 4096 ≡ 0
  pub ordered : r.start_addr ≤ r.end_addr
  pub bounded : r.end_addr ≤ 2 ^ 52

pub frame_count-eq :
    (r : MemoryRegion) → IsRegion r → frame_count r ≡ (r.end_addr - r.start_addr) / 4096
unfolding frame_count sub64
frame_count-eq r v = omega (arith, v.ordered, v.bounded)

pub select-get_elem? :
    (k ordinal : ℕ) (rs : List MemoryRegion)
    → select (ordinal + k) ordinal rs ≡ get_elem? (usable_regions rs) k
unfolding select
select-get_elem? k ordinal [] = refl
select-get_elem? zero ordinal (r ∷ rs) = ground (arith, select-get_elem? 0 ordinal rs)
select-get_elem? (suc k) ordinal (r ∷ rs) =
    let shift : suc ordinal + k ≡ ordinal + suc k = omega arith in
    ground (
      arith,
      select-get_elem? (suc k) ordinal rs,
      rw shift at (select-get_elem? k (suc ordinal) rs),
    )

pub length-usable_regions : (rs : List MemoryRegion) → length (usable_regions rs) ≤ length rs
length-usable_regions [] = omega arith
length-usable_regions (r ∷ rs) = ground (arith, length-usable_regions rs)

All-kept {ℓ} :
    (P : MemoryRegion → Type ℓ) (b : Bool) (r : MemoryRegion) (us : List MemoryRegion)
    → P r
    → All P us
    → All P (if b then r ∷ us else us)
All-kept P true r us p ps = (p, ps)
All-kept P false r us p ps = ps

pub All-usable_regions {ℓ} :
    (P : MemoryRegion → Type ℓ) (rs : List MemoryRegion) → All P rs → All P (usable_regions rs)
All-usable_regions P [] a = tt
All-usable_regions P (r ∷ rs) (p, ps) =
    All-kept P r.usable r (usable_regions rs) p (All-usable_regions P rs ps)

pub frames_from_end :
    (us : List MemoryRegion) (k o : ℕ) → get_elem? us k ≡ none → frames_from us k o ≡ []
frames_from_end [] k o e = refl
frames_from_end (u ∷ us) zero o e = absurd (ground arith)
frames_from_end (u ∷ us) (suc k) o e = frames_from_end us k o e

-- A frame of the region under the cursor.
pub frames_from_here :
    (us : List MemoryRegion) (k o : ℕ) (r : MemoryRegion)
    → get_elem? us k ≡ some r
    → o < frame_count r
    → frames_from us k o ≡ (r.start_addr + o * 4096) ∷ frames_from us k (o + 1)
frames_from_here [] k o r e h = absurd (ground arith)
frames_from_here (u ∷ us) zero o r e h =
    let more : frame_count u - o ≡ suc (frame_count u - (o + 1)) = ground arith in
    let one : o + 1 ≡ suc o = omega arith in
    let same : u ≡ r = ground arith in
    let first : frames_from (u ∷ us) 0 o
        ≡ (u.start_addr + o * 4096) ∷ frames_from (u ∷ us) 0 (o + 1) =
      rw (more, one) refl in
    first
    ∙ ap (λ (t : MemoryRegion). (t.start_addr + o * 4096) ∷ frames_from (u ∷ us) 0 (o + 1)) same
frames_from_here (u ∷ us) (suc k) o r e h = frames_from_here us k o r e h

pub frames_from_zero : (us : List MemoryRegion) → frames_from us 0 0 ≡ frames us
frames_from_zero [] = refl
frames_from_zero (u ∷ us) = ground arith

-- The region under the cursor has no more frames.
pub frames_from_next :
    (us : List MemoryRegion) (k o : ℕ) (r : MemoryRegion)
    → get_elem? us k ≡ some r
    → frame_count r ≤ o
    → frames_from us k o ≡ frames_from us (suc k) 0
frames_from_next [] k o r e h = absurd (ground arith)
frames_from_next (u ∷ us) zero o r e h =
    let over : frame_count u - o ≡ 0 = ground arith in rw over (sym (frames_from_zero us))
frames_from_next (u ∷ us) (suc k) o r e h = frames_from_next us k o r e h
