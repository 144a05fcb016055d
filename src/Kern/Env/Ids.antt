-- ===== src/Kern/Env/Ids.antt =====
-- The identifiers that `mkenvid` of kern/env.c makes.
use mos_riscv.Prelude.{ℕ, ◌+◌, ◌*◌, ◌%◌, ◌^◌, ◌<◌, ◌≡◌, ◌≢◌, ◌-◌, ◌∙◌, sym, arith}
use mos_riscv.Prelude.Bits.{bit_or-disjoint}
use mos_riscv.Kern.Env.State.{Kernel}
use mos_riscv.Kern.Env.Table.{envx, mkenvid}

-- While the counter does not overflow, an identifier is the counter above the index.
mkenvid_lem :
    (e : ℕ) (k : Kernel)
    → e < 1024
    → k.next_id < 2 ^ 21 - 1
    → (mkenvid e k).0 ≡ (k.next_id + 1) * 2 ^ 11 + e
unfolding mkenvid
mkenvid_lem e k h b =
    let i : (k.next_id + 1) % 2 ^ 32 ≡ k.next_id + 1 = omega arith in
    let s : (k.next_id + 1) * 2 ^ 11 % 2 ^ 32 ≡ (k.next_id + 1) * 2 ^ 11 = omega arith in
    rw (i, s) (bit_or-disjoint 11 (k.next_id + 1) e (omega arith))

-- In the first 2 ^ 21 - 1 calls of `mkenvid`, the identifier is not 0 and `ENVX` gives back the index
-- that it was made for.
pub envx-mkenvid :
    (e : ℕ) (k : Kernel)
    → e < 1024
    → k.next_id < 2 ^ 21 - 1
    → (envx (mkenvid e k).0 ≡ e) × ((mkenvid e k).0 ≢ 0)
envx-mkenvid e k h b =
    (omega (arith, mkenvid_lem e k h b), λ z. absurd (omega (arith, mkenvid_lem e k h b, z)))

-- Two of these calls give the same identifier only for the same index and the same counter.
mkenvid-injective :
    (e e' : ℕ) (k k' : Kernel)
    → e < 1024
    → e' < 1024
    → k.next_id < 2 ^ 21 - 1
    → k'.next_id < 2 ^ 21 - 1
    → (mkenvid e k).0 ≡ (mkenvid e' k').0
    → (e ≡ e') × (k.next_id ≡ k'.next_id)
mkenvid-injective e e' k k' h h' b b' same =
    let p : (k.next_id + 1) * 2 ^ 11 + e ≡ (k'.next_id + 1) * 2 ^ 11 + e' =
      sym (mkenvid_lem e k h b) ∙ same ∙ mkenvid_lem e' k' h' b' in
    (omega arith, omega arith)
