-- ===== src/Disk/Remove/Kept.antt =====
-- What a removal leaves as it was in every structure.
use bitch.Base.{ℕ, ◌<◌, ◌≡◌, refl}
use bitch.Disk.{Disk, Disks}
use bitch.Disk.Remove.Free.{freed, freed-field}

-- The fields that a removal leaves alone in every structure.
pub record SameDisk (a b : Disk) : Type 0 where
  pub id : b.id ≡ a.id
  pub dev_type : b.dev_type ≡ a.dev_type
  pub dev_id : b.dev_id ≡ a.dev_id
  pub start_sector : b.start_sector ≡ a.start_sector
  pub sector_count : b.sector_count ≡ a.sector_count
  pub fs : b.fs ≡ a.fs
  pub part_id : b.part_id ≡ a.part_id
  pub pdisk : b.pdisk ≡ a.pdisk

pub freed-SameDisk :
    (d : Disks) (p : ℕ) (pos : 0 < p) → (x : ℕ) → SameDisk (d.disk_at x) ((freed d p pos).disk_at x)
freed-SameDisk d p pos x = record {
  id = freed-field d p pos (λ r. r.id) (λ r v. refl) (λ r v. refl) (λ r v. refl) x;
  dev_type = freed-field d p pos (λ r. r.dev_type) (λ r v. refl) (λ r v. refl) (λ r v. refl) x;
  dev_id = freed-field d p pos (λ r. r.dev_id) (λ r v. refl) (λ r v. refl) (λ r v. refl) x;
  start_sector =
      freed-field d p pos (λ r. r.start_sector) (λ r v. refl) (λ r v. refl) (λ r v. refl) x;
  sector_count =
      freed-field d p pos (λ r. r.sector_count) (λ r v. refl) (λ r v. refl) (λ r v. refl) x;
  fs = freed-field d p pos (λ r. r.fs) (λ r v. refl) (λ r v. refl) (λ r v. refl) x;
  part_id = freed-field d p pos (λ r. r.part_id) (λ r v. refl) (λ r v. refl) (λ r v. refl) x;
  pdisk = freed-field d p pos (λ r. r.pdisk) (λ r v. refl) (λ r v. refl) (λ r v. refl) x;
}
