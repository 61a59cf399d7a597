-- ===== src/Preview.antt =====
-- src/PicturePreviewHandler.cpp and .hpp: the previews that are kept, and how they are listed and
-- served.
--
-- A mutex guards `ids` and `pictures`: an operation runs alone here; Preview/Threads takes the two
-- steps of `createPreview` apart. The random identifier, the
-- splitting of a path and the lexical conversion are Boost's, and so are arguments.
pub mod Defs
pub mod Trimming
pub mod Store
pub mod Drawing
pub mod Mask
pub mod Listing
pub mod Holding
pub mod History
pub mod Threads
pub mod Pending
pub mod Serial
pub mod Serving
pub mod Sources
pub mod Fetch
pub mod Urls
pub mod Reading
mod Tests
mod SerialTests
