-- ===== src/UnitTests/Pass.antt =====
-- The unit tests of disk-image-test.cpp pass.
use us_blkback.Base.{
  List, ℕ, ◌+◌, ◌*◌, ◌-◌, ◌<◌, ◌≡◌, refl, sym, ◌∙◌, ap, inl, inr, some, true, arith,
}
use us_blkback.Disk.Image.{MappedFile, DiskImage, close_image, flush_backing_file}
use us_blkback.Disk.Bounds.{IsMappedFile, open_image-IsWf, open_image_lem}
use us_blkback.Disk.Backing.{
  OutStream, IsOutStream, success, failure, create_backing_file, create_backing_file-open_image,
}
use us_blkback.UnitTests.{
  vector, equal, test_read_sector, test_write_sector, test_write_bounding, test_edge_cases,
  test_create_backing_file, all_tests, globals, test_program, setup,
}
use us_blkback.UnitTests.Rules.{
  equal_lem, Ready, Passes, Passes-require, read_sector-Ready, write_sector-Ready, Passes-read,
  Passes-write, Passes-read_beyond, Passes-write_beyond, Passes-then,
}

module _ {F : Type 0} (m : MappedFile F) (laws : IsMappedFile m) (d : DiskImage F)
    (ok : Ready m laws d) where
  test_read_sector-Passes : Passes m laws (test_read_sector m) d
  unfolding test_read_sector
  test_read_sector-Passes =
      Passes-read m laws 512 (vector 0) _ d ok (omega arith) refl λ empty1 size1 _.
        Passes-read m laws 512 (vector 255) _ d ok (omega arith) refl λ ff1 size2 _.
          Passes-read_beyond m laws 10000 empty1 _ d ok (omega arith)
            (Passes-read_beyond m laws 10000 ff1 _ d ok (omega arith) (d, refl, ok))

  test_write_sector-Passes : Passes m laws (test_write_sector m) d
  unfolding test_write_sector
  test_write_sector-Passes =
      Passes-write m laws 512 (vector 255) _ d ok (omega arith) refl λ d1 ok1 _.
        Passes-write m laws 256 (vector 255) _ d1 ok1 (omega arith) refl λ d2 ok2 _.
          Passes-write m laws 256 (vector 255) _ d2 ok2 (omega arith) refl λ d3 ok3 _.
            Passes-write_beyond m laws 10000 (vector 255) _ d3 ok3 (omega arith) (d3, refl, ok3)

  test_write_bounding-Passes : Passes m laws (test_write_bounding m) d
  unfolding test_write_bounding
  test_write_bounding-Passes =
      Passes-write m laws (512 - 1) (vector 0) _ d ok (omega arith) refl λ d1 ok1 new1.
        Passes-read m laws (512 - 1) (vector 170) _ d1 ok1 (omega arith) refl λ buf1 _ got1.
          Passes-require m laws (equal (vector 0) buf1) _ d1
            (equal_lem (vector 0) buf1 λ k h. sym (got1 k h ∙ new1 k h))
            (Passes-write m laws 512 (vector 255) _ d1 ok1 (omega arith) refl λ d2 ok2 new2.
              Passes-read m laws 512 (vector 187) _ d2 ok2 (omega arith) refl λ buf2 _ got2.
                Passes-require m laws (equal (vector 255) buf2) _ d2
                  (equal_lem (vector 255) buf2 λ k h. sym (got2 k h ∙ new2 k h))
                  (Passes-write m laws (512 + 1) (vector 0) _ d2 ok2 (omega arith) refl
                    λ d3 ok3 new3.
                      Passes-read m laws (512 + 1) (vector 204) _ d3 ok3 (omega arith) refl
                        λ buf3 _ got3.
                          Passes-require m laws (equal (vector 0) buf3) _ d3
                            (equal_lem (vector 0) buf3 λ k h. sym (got3 k h ∙ new3 k h))
                            (Passes-write m laws (512 + 1) (vector 0) _ d3 ok3 (omega arith) refl
                              λ d4 ok4 new4.
                                Passes-read m laws (512 + 1) (vector 221) _ d4 ok4 (omega arith)
                                  refl
                                  λ buf4 _ got4.
                                    Passes-require m laws (equal (vector 0) buf4) _ d4
                                      (equal_lem (vector 0) buf4 λ k h. sym (got4 k h ∙ new4 k h))
                                      (Passes-write m laws 512 (vector 255) _ d4 ok4 (omega arith)
                                        refl
                                        λ d5 ok5 new5.
                                          Passes-read m laws 512 (vector 238) _ d5 ok5 (omega arith)
                                            refl
                                            λ buf5 _ got5.
                                              Passes-require m laws (equal (vector 255) buf5) _ d5
                                                (equal_lem (vector 255) buf5
                                                  λ k h. sym (got5 k h ∙ new5 k h))
                                                (Passes-write m laws 512 (vector 0) _ d5 ok5
                                                  (omega arith) refl
                                                  λ d6 ok6 new6.
                                                    Passes-read m laws 512 (vector 255) _ d6 ok6
                                                      (omega arith) refl
                                                      λ buf6 _ got6.
                                                        rw
                                                          (equal_lem (vector 0) buf6
                                                            λ k h. sym (got6 k h ∙ new6 k h))
                                                          (d6, refl, ok6))))))

  test_edge_cases-Passes : Passes m laws (test_edge_cases m) d
  unfolding test_edge_cases
  test_edge_cases-Passes =
      Passes-write m laws (512 * 2 - 1) (vector 255) _ d ok (omega arith) refl λ d1 ok1 new1.
        Passes-read m laws (512 * 2 - 1) (vector 17) _ d1 ok1 (omega arith) refl λ buf7 _ got7.
          let all_ff : equal (vector 255) buf7 ≡ true =
            equal_lem (vector 255) buf7 λ k h. sym (got7 k h ∙ new1 k h) in
          Passes-require m laws (equal (vector 255) buf7) _ d1 all_ff (
            Passes-write m laws (512 * 2 - 1) (vector 0) _ d1 ok1 (omega arith) refl λ d2 ok2 new2.
              Passes-read m laws (512 * 2 - 1) (vector 34) _ d2 ok2 (omega arith) refl
                λ buf8 _ got8.
                  let all_empty : equal (vector 0) buf8 ≡ true =
                    equal_lem (vector 0) buf8 λ k h. sym (got8 k h ∙ new2 k h) in
                  Passes-require m laws (equal (vector 0) buf8) _ d2 all_empty (
                    Passes-write m laws 0 (vector 255) _ d2 ok2 (omega arith) refl λ d3 ok3 _.
                      Passes-read m laws 0 (vector 51) _ d3 ok3 (omega arith) refl λ buf9 _ _.
                        Passes-require m laws (equal (vector 255) buf7) _ d3 all_ff (
                          Passes-write m laws 0 (vector 0) _ d3 ok3 (omega arith) refl λ d4 ok4 _.
                            Passes-read m laws 0 (vector 68) _ d4 ok4 (omega arith) refl
                              λ buf10 _ _. rw all_empty (d4, refl, ok4))))

module _ {F : Type 0} (m : MappedFile F) (laws : IsMappedFile m) where
  -- On an image of 1024 sectors every test of the file passes, in the order of the file and with no
  -- access out of bounds, where `stat` finds the image.
  pub all_tests-Passes : (d : DiskImage F) → Ready m laws d → Passes m laws (all_tests m true) d
  unfolding all_tests test_create_backing_file
  all_tests-Passes d ok =
      Passes-then m laws (test_read_sector m) _ d (test_read_sector-Passes m laws d ok) λ d1 ok1.
        Passes-then m laws (test_write_sector m) _ d1 (test_write_sector-Passes m laws d1 ok1)
          λ d2 ok2.
            Passes-then m laws (test_write_bounding m) _ d2
              (test_write_bounding-Passes m laws d2 ok2)
              λ d3 ok3. test_edge_cases-Passes m laws d3 ok3

  -- The program of the tests: where the backing file can be created and is what is mapped, the
  -- globals are made without an error and all tests pass on them, one after the other.
  pub all_tests-globals :
      {S : Type 0} (out : OutStream S) (out_ok : IsOutStream out) (opened : List ℕ → S)
      (map_file : S → F) (name : List ℕ)
      → (out.contents (opened name)).size ≡ 0
      → (create_backing_file out opened name 1024 512).0 ≡ success
      → ((s : S) → m.size (map_file s) ≡ (out.contents s).size)
      → ((s : S) (i : ℕ) → m.get (map_file s) i ≡ (out.contents s).byte i)
      → (d : DiskImage F) × (globals m out opened map_file name ≡ some (success, d))
        × Passes m laws (all_tests m true) d
        × ((d' : DiskImage F) × (test_program m out opened map_file name true ≡ some (some tt, d')))
  unfolding globals test_program
  all_tests-globals out out_ok opened map_file name empty created sizes bytes =
      let s = (create_backing_file out opened name 1024 512).1 in
      let (d, made, count, _) =
        create_backing_file-open_image out out_ok m opened name 1024 (map_file s) empty
          (omega arith) (omega arith) created (sizes s) (bytes s) in
      let made_globals : globals m out opened map_file name ≡ some (success, d) =
        rw (globals, made, created) refl in
      let (d', passed, ready) =
        all_tests-Passes d
          (record { valid = open_image-IsWf m (map_file s) d made; sectors = count }) in
      (d, made_globals, (d', passed, ready), (d', rw (test_program, made_globals) passed))

  -- `setup` returns the code of the globals if that is not 0; on a file of 1024 sectors it returns
  -- 0, and leaves sector 512 filled with 255.
  pub setup_lem :
      (f : F)
      → m.size f ≡ 1024 * 512
      → (setup m failure f ≡ some (failure, f))
        × (f' : F) × (setup m success f ≡ some (success, f'))
        × ((k : ℕ) → k < 512 → m.get f' (512 * 512 + k) ≡ 255)
  unfolding setup close_image flush_backing_file
  setup_lem f size = elim (open_image_lem m f) [
    | inr (bad, _) ↦ absurd (ground arith)
    | inl (_, _, _, d, made, same, valid) ↦
        let ok : Ready m laws d = record {
          valid = valid;
          sectors = omega (arith, ap m.size same);
        } in
        let (d', wrote, ok', new) =
          write_sector-Ready m laws 512 (vector 255) d ok (omega arith) refl in
        let (r, got, _, _) = read_sector-Ready m laws 512 (vector 0) d' ok' (omega arith) refl in
        (
          refl,
          (close_image m d').file,
          rw (setup, made, wrote, got) refl,
          λ k h. laws.get-flush d'.file (512 * 512 + k) ∙ new k h,
        )
  ]
