-- ===== src/Filesys/Tests.antt =====
-- The theorems on student-distrib/filesys.c at a small image.
use linux_simulation.Base.{
  ℕ, min, ◌/◌, ◌≤◌, ◌<◌, ◌≡◌, ◌⊎◌, refl, some, none, List, arith, replicate, minus_one,
}
use linux_simulation.CString.{bytes_of}
use linux_simulation.Filesys.{
  Filesys, Dentry, load8, load32, read_data, read_dentry_by_name, empty_dentry, inode_length,
  data_block, num_data_blocks,
}
use linux_simulation.Filesys.Data.{FilledFrom, read_data-FilledFrom}
use linux_simulation.Filesys.BadBlock.{read_data_bad_block}
use linux_simulation.Filesys.Entry.{IsEntry}
use linux_simulation.Filesys.Lookup.{HasNames, Takes, read_dentry_by_name-Takes}
use linux_simulation.Filesys.Ls.{listing, listing-names_behind, names_behind}
use linux_simulation.Examples.{
  image, image_size, image-IsFile, image-HasNames, image-IsDirectory, name_a, name_a-IsString,
  name_a-IsByteReader, long_image,
}

read_data-FilledFrom_example :
    (out : List ℕ) × (read_data image 0 1 (some (replicate 3 0)) 2 ≡ some (some out, 2))
    × FilledFrom image 0 1 (replicate 3 0) 0 2 out
read_data-FilledFrom_example =
    read_data-FilledFrom image 0 1 (replicate 3 0) 2 2 image-IsFile
      (unfold load32 load8 in omega arith) (unfold load32 load8 in refl) (omega arith)

read_dentry_by_name-Takes_example :
    ((read_dentry_by_name image (some (bytes_of name_a)) (some empty_dentry)
        ≡ some (image, some empty_dentry, minus_one))
      × ((j : ℕ) → j < 63 → ¬ (Takes image image_size (bytes_of name_a) (min 1 32) j)))
    ⊎ ((k : ℕ) × (d : Dentry) × (read_dentry_by_name image
            (some (bytes_of name_a))
            (some empty_dentry)
          ≡ some (record image { file_pos_keeper = k }, some d, 0))
        × (k < 63)
        × Takes image image_size (bytes_of name_a) (min 1 32) k
        × IsEntry image k (image_size k) d
        × ((j : ℕ) → j < k → ¬ (Takes image image_size (bytes_of name_a) (min 1 32) j)))
read_dentry_by_name-Takes_example =
    read_dentry_by_name-Takes image image_size (bytes_of name_a) 1 empty_dentry image-HasNames
      name_a-IsByteReader name_a-IsString (omega arith) (omega arith) refl

abbrev listing_image : Filesys
listing_image = record image { fs_dir_read_flag = 1 }

listing-HasNames : HasNames listing_image image_size
listing-HasNames = record { fits = image-HasNames.fits; is_string = image-HasNames.is_string }

listing-names_behind_example :
    listing 3 listing_image none (replicate 33 0)
    ≡ some (
      record listing_image { file_pos_keeper = 0; fs_dir_read_flag = 0 },
      names_behind listing_image image_size 0 1,
    )
listing-names_behind_example =
    listing-names_behind 1 3 listing_image image_size none (replicate 33 0)
      (record { names = listing-HasNames; types = image-IsDirectory.types })
      (λ i lt. let two : i < 2 = unfold load32 load8 in omega arith in ground arith) (omega arith)
      (unfold load32 load8 in refl) (omega arith) (omega arith)

long_image-bad : num_data_blocks long_image ≤ data_block long_image 0 1
unfolding load32 load8
long_image-bad = omega arith

long_image-length : inode_length long_image 0 ≡ 4096
unfolding load32 load8
long_image-length = refl

long_image-good :
    (j : ℕ) → j < 1 → 4095 / 4096 ≤ j → data_block long_image 0 j < num_data_blocks long_image
unfolding load32 load8
long_image-good j lt le = let e : j ≡ 0 = omega arith in rw e (omega arith)

read_data_bad_block_example :
    (out : List ℕ) × (read_data long_image 0 4095 (some (replicate 1 0)) 1
      ≡ some (some out, minus_one))
read_data_bad_block_example =
    read_data_bad_block long_image 0 4095 1 long_image-bad (replicate 1 0) 1 (omega arith)
      (let l = long_image-length in omega arith) (omega arith)
      (let l = long_image-length in omega arith) long_image-good
