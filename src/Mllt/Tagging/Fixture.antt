-- ===== src/Mllt/Tagging/Fixture.antt =====
-- An instance of the tags of src/helpers/mllt.rs for the tests: every file has a tag with a table.
use vorleser_server.Prelude.{some, [], ok}
use vorleser_server.Mllt.Tagging.{Id3}

abbrev pub all_tagged : {S : Type 0} → Id3 S
all_tagged = record {
  Tag = Unit;
  Frame = Unit;
  with_content = λ id content. tt;
  set_tag_alter_preservation = λ b f. f;
  set_file_alter_preservation = λ b f. f;
  get = λ id tag. some tt;
  add_frame = λ f tag. tag;
  read_from_path = λ p s. (ok tt, s);
  write_to_path = λ tag p s. (ok tt, s);
  read_frames = λ p s. (ok [], s);
}
