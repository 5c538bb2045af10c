-- ===== src/Download.antt =====
-- The download directory: the piece picker (Picker), the manager (Manager), the writer of
-- files (Filewriter), and the download over one connection (Sequential).
pub mod Picker
pub mod Manager
pub mod Filewriter
pub mod Sequential
